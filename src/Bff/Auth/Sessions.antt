-- ===== src/Bff/Auth/Sessions.antt =====
-- What the auth controller does to the sessions.
use fernbank.Base.{◌≡◌, refl, inl, inr, String, Option, none, some, Option-cases}
use fernbank.Base.Dict.{lookup, lookup-insert_self, lookup-remove_self}
use fernbank.Base.Text.{truthy}
use fernbank.Bff.Http.{Request, Result, ok, throws, SessionPayload, TokenPair}
use fernbank.Bff.World.{Env, World, Shared, pure, catch_result}
use fernbank.Bff.World.Rules.{bind_ok}
use fernbank.Bff.TokenCache.{seed, entry_of, invalidate}
use fernbank.Bff.Session.{start_session, session_cookie_name, csrf_cookie_name, clear_session}
use fernbank.Bff.Session.Cookies.{CookieLaws, Holds, start_session-Holds, last_write}
use fernbank.Bff.Common.{extract_correlation_id, first_value}
use fernbank.Bff.Auth.{
  AuthCodec, AuthStatus, authenticated, mfa_required, BackendAuthResult, BrowserAuthResult,
  start_with_tokens, start_at_status, start_session_if_authenticated, logout, report_logout,
  end_session,
}

-- A session was started: the browser gets a session cookie and a CSRF cookie, the server reads the
-- session cookie as the new session with the refresh token, and the cache has the tokens for it.
abbrev pub Started : Env → String → String → World → Result BrowserAuthResult × World → Type 0
Started env access_token refresh_token w r =
    (session_id csrf_token : String) × (r.0
      ≡ ok (record { status = authenticated; mfa_token = none }))
    × Holds env (record { session_id = session_id; refresh_token = refresh_token }) r.1
    × (last_write csrf_cookie_name r.1.response.cookie_writes ≡ some (some csrf_token))
    × (lookup session_id r.1.shared.cache
        ≡ some (
            entry_of env w.shared.now
              (record { access_token = access_token; refresh_token = refresh_token })))

start_with_tokens-Started :
    (env : Env) (laws : CookieLaws env) (access_token refresh_token : String)
    (mfa_token : Option String) (w : World)
    → Started env access_token refresh_token w
        (start_with_tokens env (some access_token) (some refresh_token) mfa_token w)
unfolding start_with_tokens seed start_session
start_with_tokens-Started env laws access_token refresh_token mfa_token w = (
  env.uuid w.shared.drawn,
  _,
  refl,
  (start_session-Holds env laws refresh_token w).1,
  refl,
  lookup-insert_self _ _ w.shared.cache,
)

-- The tokens with which a session is started: the status is AUTHENTICATED, and both are there.
abbrev pub tokens_at : AuthStatus → Option String → Option String → Option TokenPair
tokens_at mfa_required access_token refresh_token = none
tokens_at authenticated none refresh_token = none
tokens_at authenticated (some access_token) none = none
tokens_at authenticated (some access_token) (some refresh_token) =
    some (record { access_token = access_token; refresh_token = refresh_token })

abbrev pub Answered :
    Env → Option TokenPair → Option String → World → Result BrowserAuthResult × World → Type 0
Answered env (some pair) mfa_token w r = Started env pair.access_token pair.refresh_token w r
Answered env none mfa_token w r =
    r ≡ (ok (record { status = mfa_required; mfa_token = mfa_token }), w)

start_at_status-Answered :
    (env : Env) (laws : CookieLaws env) (status : AuthStatus)
    (access_token refresh_token mfa_token : Option String) (w : World)
    → Answered env
        (tokens_at status access_token refresh_token)
        mfa_token
        w
        (start_at_status env status access_token refresh_token mfa_token w)
unfolding start_at_status
start_at_status-Answered env laws mfa_required a r mfa_token w = refl
start_at_status-Answered env laws authenticated none r mfa_token w = refl
start_at_status-Answered env laws authenticated (some a) none mfa_token w = refl
start_at_status-Answered env laws authenticated (some a) (some r) mfa_token w =
    start_with_tokens-Started env laws a r mfa_token w

-- A result of the backend starts a session exactly if its status is AUTHENTICATED and both tokens
-- are there and not empty; then the browser gets the two cookies, the session cookie reads back as
-- the session, and the cache has its tokens. In every other case nothing is changed, and the
-- browser is asked for its second factor.
pub start_session_if_authenticated-Answered :
    (env : Env) (result : BackendAuthResult) (w : World)
    → CookieLaws env
    → Answered env
        (tokens_at result.status (truthy result.access_token) (truthy result.refresh_token))
        result.mfa_token
        w
        (start_session_if_authenticated env result w)
unfolding start_session_if_authenticated
start_session_if_authenticated-Answered env result w laws =
    start_at_status-Answered env laws result.status (truthy result.access_token)
      (truthy result.refresh_token) result.mfa_token w

-- What a session leaves behind in the server when it is gone.
abbrev pub Forgotten : Option SessionPayload → Shared → Type 0
Forgotten none s = Unit
Forgotten (some session) s =
    (lookup session.session_id s.cache ≡ none) × (lookup session.session_id s.refresh_locks ≡ none)

invalidate-Forgotten :
    (session : SessionPayload) (s : Shared)
    → Forgotten (some session) (invalidate session.session_id s)
unfolding invalidate
invalidate-Forgotten session s =
    (lookup-remove_self _ s.cache, lookup-remove_self _ s.refresh_locks)

extract_correlation_id-ok :
    (env : Env) (req : Request) (w : World)
    → (id : String) × ((extract_correlation_id env req w).0 ≡ ok id)
unfolding extract_correlation_id
extract_correlation_id-ok env req w =
    elim (Option-cases (truthy (first_value (lookup "x-correlation-id" req.headers)))) [
      | inl e ↦ (env.uuid w.shared.drawn, rw (e, extract_correlation_id) refl)
      | inr (id, e) ↦ (id, rw (e, extract_correlation_id) refl)
    ]

caught-ok : (r : Result (Unit {0}) × World) → (catch_result (λ e. pure tt) r).0 ≡ ok tt
caught-ok (ok u, w) = refl
caught-ok (throws e, w) = refl

report_logout-ok :
    (env : Env) (codec : AuthCodec) (session : SessionPayload) (id : String) (w : World)
    → (report_logout env codec session id w).0 ≡ ok tt
unfolding report_logout
report_logout-ok env codec session id w = caught-ok _

end_session-Forgotten :
    (env : Env) (codec : AuthCodec) (req : Request) (session : Option SessionPayload) (w : World)
    → ((end_session env codec req session w).0 ≡ ok tt)
      × Forgotten session (end_session env codec req session w).1.shared
unfolding end_session
end_session-Forgotten env codec req none w = (refl, tt)
end_session-Forgotten env codec req (some session) w =
    let (id, extracted) = extract_correlation_id-ok env req w in
    rw (bind_ok _ (extract_correlation_id env req w) extracted) (
      rw
        (bind_ok _ (report_logout env codec session id (extract_correlation_id env req w).1)
          (report_logout-ok env codec session id _))
        (refl, invalidate-Forgotten session _))

-- Logging out always succeeds, with the backend's help or without: both cookies are cleared, and
-- the cache has neither an entry nor a lock of the request's session.
pub logout-Forgotten :
    (env : Env) (codec : AuthCodec) (req : Request) (w : World)
    → ((logout env codec req w).0 ≡ ok tt)
      × (last_write session_cookie_name (logout env codec req w).1.response.cookie_writes
          ≡ some none)
      × (last_write csrf_cookie_name (logout env codec req w).1.response.cookie_writes ≡ some none)
      × Forgotten req.fernbank_session (logout env codec req w).1.shared
unfolding logout clear_session
logout-Forgotten env codec req w =
    let (done, gone) = end_session-Forgotten env codec req req.fernbank_session w in
    rw (bind_ok (λ _. clear_session env) (end_session env codec req req.fernbank_session w) done)
      (refl, refl, refl, gone)
