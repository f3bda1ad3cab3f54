-- ===== src/Bff/Session.antt =====
-- The session cookies: bff/src/session/session.service.ts, require-session.ts,
-- session-context.middleware.ts and session-cookie-sync.interceptor.ts, with
-- bff/src/common/session-cookie.ts and csrf-cookie.ts.
pub mod Cookies
pub mod Sync
use fernbank.Base.{
  ℕ, ◌*◌, Bool, true, false, not, ◌&&◌, ◌||◌, List, [], ◌∷◌, String, Option, none, some, ◌==◌,
  if◌then◌else◌,
}
use fernbank.Base.Dict.{lookup}
use fernbank.Base.Text.{truthy}
use fernbank.Bff.Crypto.{encrypt, decrypt}
use fernbank.Bff.Http.{
  SessionPayload, Request, Response, CookieOptions, CookieWrite, sets, clears, http, object,
  problem,
}
use fernbank.Bff.World.{Env, World, M, ◌>>=◌, ◌>>◌, pure, throw, respond, draw, shared}
use fernbank.Bff.TokenCache.{get_current_refresh_token}

abbrev pub session_cookie_name : String
session_cookie_name = "fernbank_bff_session"

abbrev pub csrf_cookie_name : String
csrf_cookie_name = "fernbank_bff_csrf"

abbrev pub refresh_token_ttl_seconds : ℕ
refresh_token_ttl_seconds = 60 * 60 * 24 * 30

unfoldable pub session_cookie_options : Env → CookieOptions
session_cookie_options env = record {
  http_only = true;
  secure = env.is_production;
  same_site = "lax";
  path = "/";
  domain = env.config.session_cookie_domain;
  max_age = refresh_token_ttl_seconds * 1000;
}

unfoldable pub csrf_cookie_options : Env → CookieOptions
csrf_cookie_options env = record {
  http_only = false;
  secure = env.is_production;
  same_site = "lax";
  path = "/";
  domain = env.config.session_cookie_domain;
  max_age = refresh_token_ttl_seconds * 1000;
}

-- express's `cookie` and `clearCookie`: one more header on the response.
abbrev pub write_cookie : CookieWrite → Response → Response
write_cookie c r = record r { cookie_writes = c ∷ r.cookie_writes }

unfoldable pub write_session_cookie : Env → String → String → M (Unit {0})
write_session_cookie env session_id refresh_token = do
  iv ← draw env.random_iv
  respond (
      write_cookie (
        sets session_cookie_name
          (encrypt env.crypto env.key iv
            (record { session_id = session_id; refresh_token = refresh_token }))
          (session_cookie_options env)))

unfoldable pub write_csrf_cookie : Env → M (Unit {0})
write_csrf_cookie env = do
  csrf_token ← draw (env.random_bytes 32)
  respond (write_cookie (sets csrf_cookie_name csrf_token (csrf_cookie_options env)))

unfoldable pub start_session : Env → String → M String
unfolding write_session_cookie write_csrf_cookie
start_session env refresh_token = do
  session_id ← draw env.uuid
  write_session_cookie env session_id refresh_token
  write_csrf_cookie env
  pure session_id

unfoldable pub rotate_session : Env → String → String → M (Unit {0})
unfolding write_session_cookie
rotate_session env session_id refresh_token = write_session_cookie env session_id refresh_token

unfoldable pub clear_session : Env → M (Unit {0})
clear_session env = do
  respond (write_cookie (clears session_cookie_name (session_cookie_options env)))
  respond (write_cookie (clears csrf_cookie_name (csrf_cookie_options env)))

-- SessionContextMiddleware.use.
abbrev session_of : Env → Option String → Option SessionPayload
session_of env none = none
session_of env (some cookie_value) = decrypt env.crypto env.key cookie_value

unfoldable pub session_context : Env → Request → Request
session_context env req = record req {
  fernbank_session = session_of env (truthy (lookup session_cookie_name req.cookies));
}

-- What `requireSession` does with `req.fernbankSession`.
unfoldable pub require : Option SessionPayload → M SessionPayload
require none = throw (http 401 (object (problem "session-required" "No active session")))
require (some session) = pure session

unfoldable pub require_session : Request → M SessionPayload
unfolding require
require_session req = require req.fernbank_session

-- The `tap` callback of SessionCookieSyncInterceptor, for a request with a session whose headers
-- are not sent.
unfoldable pub sync_token : Env → SessionPayload → Option String → M (Unit {0})
sync_token env session none = pure tt
sync_token env session (some current) =
    if current == session.refresh_token
    then pure tt
    else rotate_session env session.session_id current

-- The same with `res.headersSent`.
unfoldable pub sync_unless_sent : Env → SessionPayload → Bool → Option String → M (Unit {0})
unfolding sync_token
sync_unless_sent env session true current = pure tt
sync_unless_sent env session false current = sync_token env session current

unfoldable pub sync_cookie : Env → Option SessionPayload → M (Unit {0})
unfolding sync_unless_sent
sync_cookie env none w = pure tt w
sync_cookie env (some session) w =
    sync_unless_sent env session w.response.headers_sent
      (truthy (get_current_refresh_token w.shared session.session_id)) w

-- The interceptor: the callback runs behind a handler that returns.
unfoldable pub intercept : {A : Type 0} → Env → Request → M A → M A
unfolding sync_cookie
intercept env req handler = do a ← handler; sync_cookie env req.fernbank_session; pure a
