-- ===== src/Bff/Auth.antt =====
-- bff/src/auth/auth.controller.ts: its eight handlers.
mod Backend
pub mod Sessions
pub use Backend.*
use fernbank.Base.{[], ◌∷◌, ◌++◌, String, Option, none, some, or_else}
use fernbank.Base.Dict.{Dict}
use fernbank.Base.Int.{ℤ, pos, ◌+ℤ◌}
use fernbank.Base.Text.{◌+++◌, truthy}
use fernbank.Bff.Http.{Request, SessionPayload, plain}
use fernbank.Bff.World.{◌>>=◌, ◌>>◌, Env, Shared, M, pure, throw, catch, modify, shared, request}
use fernbank.Bff.TokenCache.{seed, invalidate, overwrite_elevated, decode_jwt_expiry_ms}
use fernbank.Bff.BackendClient.{AuthenticatedRequestOptions, request_json}
use fernbank.Bff.Session.{start_session, clear_session, require_session}
use fernbank.Bff.Common.{extract_correlation_id, extract_client_ip}

abbrev step_up_fallback_ttl_ms : ℤ
step_up_fallback_ttl_ms = pos 300000

-- The fields that the controller tests for truth.
unfoldable pub start_with_tokens :
    Env → Option String → Option String → Option String → M BrowserAuthResult
start_with_tokens env (some access_token) (some refresh_token) mfa_token = do
  session_id ← start_session env refresh_token
  modify
      (seed env session_id (record { access_token = access_token; refresh_token = refresh_token }))
  pure (record { status = authenticated; mfa_token = none })
start_with_tokens env none refresh_token mfa_token =
    pure (record { status = mfa_required; mfa_token = mfa_token })
start_with_tokens env (some access_token) none mfa_token =
    pure (record { status = mfa_required; mfa_token = mfa_token })

unfoldable pub start_at_status :
    Env → AuthStatus → Option String → Option String → Option String → M BrowserAuthResult
unfolding start_with_tokens
start_at_status env authenticated access_token refresh_token mfa_token =
    start_with_tokens env access_token refresh_token mfa_token
start_at_status env mfa_required access_token refresh_token mfa_token =
    pure (record { status = mfa_required; mfa_token = mfa_token })

unfoldable pub start_session_if_authenticated : Env → BackendAuthResult → M BrowserAuthResult
unfolding start_at_status
start_session_if_authenticated env result =
    start_at_status env result.status (truthy result.access_token) (truthy result.refresh_token)
      result.mfa_token

unfoldable pub register : Env → AuthCodec → RegisterDto → Request → M String
register env codec dto req = do
  id ← extract_correlation_id env req
  post env codec.opaque "/api/v1/auth/register" (register_body dto) (some id) none

unfoldable pub login : Env → AuthCodec → LoginDto → Request → M BrowserAuthResult
login env codec dto req = do
  id ← extract_correlation_id env req
  result ←
      post env codec.auth_result "/api/v1/auth/login" (login_body dto) (some id)
        (some (extract_client_ip req))
  start_session_if_authenticated env result

unfoldable pub mfa_verify : Env → AuthCodec → MfaVerifyDto → Request → M BrowserAuthResult
mfa_verify env codec dto req = do
  id ← extract_correlation_id env req
  result ← post env codec.auth_result "/api/v1/auth/mfa/verify" (mfa_verify_body dto) (some id) none
  start_session_if_authenticated env result

-- The call of the backend in `logout`; its errors are dropped.
unfoldable pub report_logout : Env → AuthCodec → SessionPayload → String → M (Unit {0})
report_logout env codec session id =
    catch
      (do
        reply ←
            post env codec.opaque "/api/v1/auth/logout"
              (("refreshToken", session.refresh_token) ∷ []) (some id) none
        pure tt)
      (λ e. pure tt)

-- The part of `logout` for a request with a session.
unfoldable pub end_session : Env → AuthCodec → Request → Option SessionPayload → M (Unit {0})
unfolding report_logout
end_session env codec req none = pure tt
end_session env codec req (some session) = do
  id ← extract_correlation_id env req
  report_logout env codec session id
  modify (invalidate session.session_id)

unfoldable pub logout : Env → AuthCodec → Request → M (Unit {0})
unfolding end_session
logout env codec req = do end_session env codec req req.fernbank_session; clear_session env

abbrev session_post :
    SessionPayload → String → Option (Dict String) → String → AuthenticatedRequestOptions
session_post session path body id = record {
  session = session;
  method = "POST";
  path = path;
  query = none;
  body = body;
  extra_headers = [];
  correlation_id = some id;
}

unfoldable pub mfa_enroll : Env → AuthCodec → Request → M (Option String)
mfa_enroll env codec req = do
  session ← require_session req
  id ← extract_correlation_id env req
  request_json env codec.opaque_json (session_post session "/api/v1/auth/mfa/enroll" none id)

unfoldable pub mfa_enroll_confirm : Env → AuthCodec → CodeDto → Request → M (Option String)
mfa_enroll_confirm env codec dto req = do
  session ← require_session req
  id ← extract_correlation_id env req
  request_json env codec.opaque_json
      (session_post session "/api/v1/auth/mfa/enroll/confirm" (some (code_body dto)) id)

-- `this.tokenCache.overwriteElevated(…)` inside a handler.
abbrev replace_shared : String → Option Shared → M Elevated
replace_shared session_id none =
    throw
      (plain ("overwriteElevated called with no existing cache entry for session " +++ session_id))
replace_shared session_id (some s) = do modify (λ _. s); pure elevated

-- The part of `stepUp` behind the await; reading a field of undefined throws.
unfoldable pub elevate : Env → SessionPayload → Option StepUpResult → M Elevated
elevate env session none w = throw (plain "Cannot read properties of undefined") w
elevate env session (some result) w =
    replace_shared session.session_id
      (overwrite_elevated session.session_id result.access_token
        (or_else (decode_jwt_expiry_ms env result.access_token)
          (w.shared.now +ℤ step_up_fallback_ttl_ms))
        w.shared)
      w

unfoldable pub step_up : Env → AuthCodec → CodeDto → Request → M Elevated
unfolding elevate
step_up env codec dto req = do
  session ← require_session req
  id ← extract_correlation_id env req
  result ←
      request_json env codec.step_up
        (session_post session "/api/v1/auth/step-up" (some (code_body dto)) id)
  elevate env session result
