-- ===== src/Bff/Auth/Backend.antt =====
-- bff/src/auth/auth-backend.service.ts, with the fields of bff/src/auth/dto and the results that
-- auth.controller.ts declares. A DTO has passed the validation pipe, which is class-validator's.
use fernbank.Base.{[], ◌∷◌, String, Option, none, some, if◌then◌else◌, leb}
use fernbank.Base.Dict.{Dict}
use fernbank.Base.Text.{◌+++◌, truthy}
use fernbank.Bff.Http.{HttpRequest, HttpReply, upstream_http_exception}
use fernbank.Bff.World.{Env, M, ◌>>=◌, pure, throw, request}
use fernbank.Bff.TokenCache.{correlation_id_header}
use fernbank.Bff.BackendClient.{bad_gateway, correlation_or_new}

pub record RegisterDto : Type 0 where
  pub full_name : String
  pub email : String
  pub password : String

pub record LoginDto : Type 0 where
  pub email : String
  pub password : String

pub record MfaVerifyDto : Type 0 where
  pub mfa_token : String
  pub code : String

-- MfaEnrollConfirmDto and StepUpDto have this one field.
pub record CodeDto : Type 0 where
  pub code : String

abbrev pub register_body : RegisterDto → Dict String
register_body dto =
    ("fullName", dto.full_name) ∷ ("email", dto.email) ∷ ("password", dto.password) ∷ []

abbrev pub login_body : LoginDto → Dict String
login_body dto = ("email", dto.email) ∷ ("password", dto.password) ∷ []

abbrev pub mfa_verify_body : MfaVerifyDto → Dict String
mfa_verify_body dto = ("mfaToken", dto.mfa_token) ∷ ("code", dto.code) ∷ []

abbrev pub code_body : CodeDto → Dict String
code_body dto = ("code", dto.code) ∷ []

pub data AuthStatus : Type 0 where
  authenticated mfa_required : AuthStatus

pub record BackendAuthResult : Type 0 where
  pub status : AuthStatus
  pub access_token : Option String
  pub refresh_token : Option String
  pub mfa_token : Option String

pub record BrowserAuthResult : Type 0 where
  pub status : AuthStatus
  pub mfa_token : Option String

-- The reply to a step-up.
pub record StepUpResult : Type 0 where
  pub access_token : String

pub data Elevated : Type 0 where
  elevated : Elevated

-- `clientIp && config.internalServiceKey`.
abbrev pub forwarded_headers : Option String → Option String → Dict String
forwarded_headers none key = []
forwarded_headers (some ip) none = []
forwarded_headers (some ip) (some key) =
    ("X-Forwarded-For", ip) ∷ ("X-Internal-Service-Key", key) ∷ []

unfoldable pub post_request : Env → String → Dict String → String → Option String → HttpRequest
post_request env path body correlation_id client_ip = record {
  method = "POST";
  url = env.config.backend_internal_base_url +++ path;
  query = none;
  body = some body;
  headers =
      ("Content-Type", "application/json")
      ∷ (correlation_id_header, correlation_id)
      ∷ forwarded_headers (truthy client_ip) (truthy env.config.internal_service_key);
}

-- axios's reading of the reply's bytes at the type T is an argument.
unfoldable pub read_post : {T : Type 0} → Env → (String → T) → Option HttpReply → M T
read_post env read none = throw bad_gateway
read_post env read (some reply) =
    if leb 400 reply.status
    then throw (upstream_http_exception reply.status (env.axios_problem reply.body))
    else pure (read reply.body)

unfoldable pub post :
    {T : Type 0} → Env → (String → T) → String → Dict String → Option String → Option String → M T
unfolding read_post post_request correlation_or_new
post env read path body correlation_id client_ip = do
  id ← correlation_or_new env correlation_id
  reply ← request env (post_request env path body id client_ip)
  read_post env read reply

-- How the replies to the auth routes are read. Those to a registration and to an enrolment are handed
-- on as they are.
pub record AuthCodec : Type 0 where
  pub auth_result : String → BackendAuthResult
  pub opaque : String → String
  pub opaque_json : String → Option String
  pub step_up : String → Option StepUpResult
