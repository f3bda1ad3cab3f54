-- ===== src/Bff/Session/Sync.antt =====
-- session-cookie-sync.interceptor.ts: the browser's cookie follows the cache behind each handler
-- that has not sent its response yet.
use fernbank.Base.{
  ◌≡◌, refl, ap, ◌⊎◌, inl, inr, Bool, true, false, String, Option, none, some, ◌==◌, eq_iff, arith,
  Bool-cases,
}
use fernbank.Base.Text.{truthy, is_empty}
use fernbank.Bff.Http.{SessionPayload, Request, Result, ok, throws}
use fernbank.Bff.World.{Env, World, M, bind_result, ◌>>◌, pure}
use fernbank.Bff.World.Rules.{bind_ok}
use fernbank.Bff.TokenCache.{get_current_refresh_token}
use fernbank.Bff.Session.{sync_token, sync_unless_sent, sync_cookie, intercept, rotate_session}
use fernbank.Bff.Session.Cookies.{CookieLaws, Holds, rotate_session-Holds}

-- The payload that the cache has for a session.
abbrev pub current_payload : SessionPayload → String → SessionPayload
current_payload session current = record {
  session_id = session.session_id;
  refresh_token = current;
}

sync_token-ok :
    (env : Env) (session : SessionPayload) (current : Option String) (w : World)
    → (sync_token env session current w).0 ≡ ok tt
unfolding sync_token rotate_session
sync_token-ok env session none w = refl
sync_token-ok env session (some current) w = ground arith

sync_unless_sent-ok :
    (env : Env) (session : SessionPayload) (sent : Bool) (current : Option String) (w : World)
    → (sync_unless_sent env session sent current w).0 ≡ ok tt
unfolding sync_unless_sent
sync_unless_sent-ok env session true current w = refl
sync_unless_sent-ok env session false current w = sync_token-ok env session current w

sync_cookie-ok :
    (env : Env) (session : Option SessionPayload) (w : World)
    → (sync_cookie env session w).0 ≡ ok tt
unfolding sync_cookie
sync_cookie-ok env none w = refl
sync_cookie-ok env (some session) w = sync_unless_sent-ok env session _ _ w

-- Behind a handler that returns, the interceptor gives its result in the state that the callback
-- leaves; behind one that throws, nothing is changed.
abbrev pub synced : {A : Type 0} → Env → Option SessionPayload → Result A × World → Result A × World
synced env session (ok a, w) = (ok a, (sync_cookie env session w).1)
synced env session (throws e, w) = (throws e, w)

synced_lem :
    {A : Type 0} (env : Env) (session : Option SessionPayload) (r : Result A × World)
    → bind_result (λ (a : A). sync_cookie env session >> pure a) r ≡ synced env session r
synced_lem env session (ok a, w) =
    bind_ok _ (sync_cookie env session w) (sync_cookie-ok env session w)
synced_lem env session (throws e, w) = refl

pub intercept_lem :
    {A : Type 0} (env : Env) (req : Request) (m : M A) (w : World)
    → intercept env req m w ≡ synced env req.fernbank_session (m w)
unfolding intercept
intercept_lem env req m w = synced_lem env req.fernbank_session (m w)

module _ (env : Env) (laws : CookieLaws env) where
  sync_token-Holds :
      (session : SessionPayload) (current : String) (w : World)
      → is_empty current ≡ false
      → (current ≡ session.refresh_token)
        ⊎ Holds env
            (current_payload session current)
            (sync_token env session (truthy (some current)) w).1
  unfolding sync_token
  sync_token-Holds session current w h = elim (Bool-cases (current == session.refresh_token)) [
    | inl same ↦ inl ((eq_iff _ _).0 same)
    | inr other ↦ inr (rw (h, other) (rotate_session-Holds env laws session.session_id current w))
  ]

  sync_unless_sent-Holds :
      (session : SessionPayload) (sent : Bool) (current : String) (w : World)
      → is_empty current ≡ false
      → sent ≡ false
      → (current ≡ session.refresh_token)
        ⊎ Holds env
            (current_payload session current)
            (sync_unless_sent env session sent (truthy (some current)) w).1
  unfolding sync_unless_sent
  sync_unless_sent-Holds session true current w h e = cc
  sync_unless_sent-Holds session false current w h e = sync_token-Holds session current w h

  -- Where a handler returns with its response unsent, and the cache has a refresh token for the
  -- request's session, the interceptor hands on the handler's result, and the browser's cookie
  -- already had that token or is made to hold it.
  pub intercept-Holds :
      {A : Type 0} (req : Request) (m : M A) (w w' : World) (a : A) (session : SessionPayload)
      (current : String)
      → m w ≡ (ok a, w')
      → req.fernbank_session ≡ some session
      → get_current_refresh_token w'.shared session.session_id ≡ some current
      → is_empty current ≡ false
      → w'.response.headers_sent ≡ false
      → ((intercept env req m w).0 ≡ ok a)
        × ((current ≡ session.refresh_token)
            ⊎ Holds env (current_payload session current) (intercept env req m w).1)
  unfolding sync_cookie
  intercept-Holds req m w w' a session current ran bears held full open_response =
      rw (intercept_lem env req m w, ran, bears)
        (refl, rw held (sync_unless_sent-Holds session _ current w' full open_response))

sync_unless_sent-sent :
    (env : Env) (session : SessionPayload) (sent : Bool) (current : Option String) (w : World)
    → sent ≡ true
    → (sync_unless_sent env session sent current w).1 ≡ w
unfolding sync_unless_sent
sync_unless_sent-sent env session true current w e = refl
sync_unless_sent-sent env session false current w e = cc

pub sync_cookie-sent :
    (env : Env) (session : Option SessionPayload) (w : World)
    → w.response.headers_sent ≡ true
    → (sync_cookie env session w).1 ≡ w
unfolding sync_cookie
sync_cookie-sent env none w e = refl
sync_cookie-sent env (some session) w e = sync_unless_sent-sent env session _ _ w e

-- Where the handler has sent its response, the cookie stays as it was, whatever the cache has.
pub intercept-sent :
    {A : Type 0} (env : Env) (req : Request) (m : M A) (w w' : World) (a : A)
    → m w ≡ (ok a, w')
    → w'.response.headers_sent ≡ true
    → intercept env req m w ≡ (ok a, w')
intercept-sent env req m w w' a ran sent =
    rw (intercept_lem env req m w, ran)
      (ap (λ v. (ok a, v)) (sync_cookie-sent env req.fernbank_session w' sent))
