-- ===== src/Bff/TokenCache/Requests.antt =====
-- What the methods of access-token-cache.service.ts send: refreshes only, one at most for a call.
use fernbank.Base.{
  ℕ, suc, ◌≤◌, ◌≡◌, refl, Bool, true, false, List, [], ◌∷◌, String, Option, none, some, arith,
  if◌then◌else◌,
}
use fernbank.Base.Dict.{lookup, has}
use fernbank.Base.Int.{ℤ}
use fernbank.Base.Text.{◌+++◌}
use fernbank.Bff.Http.{HttpRequest, TokenPair, Result, ok, throws, CacheEntry}
use fernbank.Bff.World.{Env, World, request, await_other, pure}
use fernbank.Bff.World.Rules.{after_bind, Adds, >>=-Adds}
use fernbank.Bff.TokenCache.{
  refresh_request, settle, start_refresh, refresh_with_lock, refresh_behind, refresh_access_token,
  resolve_behind, begin_refresh, resolve_access_token, force_refresh, current_or_cookie, drop_entry,
}

abbrev pub count_of : (HttpRequest → Bool) → List HttpRequest → ℕ
count_of test [] = 0
count_of test (r ∷ rs) = let rest = count_of test rs in if test r then suc rest else rest

-- How many of the requests sent so far pass a test.
abbrev pub count_sent : (HttpRequest → Bool) → World → ℕ
count_sent test w = count_of test w.sent

abbrev pub all_requests : HttpRequest → Bool
all_requests r = true

-- A request on behalf of the session: one that bears an access token.
abbrev pub is_authorized : HttpRequest → Bool
is_authorized r = has "Authorization" r.headers

-- A refresh: a POST of some refresh token, and of nothing else, to the backend's refresh path, with no
-- access token and no idempotency key.
abbrev pub IsRefresh : Env → HttpRequest → Type 0
IsRefresh env r =
    (r.method ≡ "POST")
    × (r.url ≡ env.config.backend_internal_base_url +++ "/api/v1/auth/refresh")
    × (r.query ≡ none)
    × (lookup "Authorization" r.headers ≡ none)
    × (lookup "idempotency-key" r.headers ≡ none)
    × (token : String) × (r.body ≡ some (("refreshToken", token) ∷ []))

pub refresh_request-IsRefresh :
    (env : Env) (id token : String) → IsRefresh env (refresh_request env id token)
unfolding refresh_request lookup
refresh_request-IsRefresh env id token = (refl, refl, refl, refl, refl, token, refl)

refresh_request-not_authorized :
    (env : Env) (id token : String) → is_authorized (refresh_request env id token) ≡ false
unfolding refresh_request has lookup
refresh_request-not_authorized env id token = refl

settle-sent :
    (env : Env) (session_id : String) (outcome : Result TokenPair) (w : World)
    → (settle env session_id outcome w).1.sent ≡ w.sent
unfolding settle
settle-sent env session_id (ok pair) w = refl
settle-sent env session_id (throws e) w = refl

-- The world behind a call has sent one request more, the refresh of a token.
abbrev pub IsRefreshed : Env → String → World → World → Type 0
IsRefreshed env token w v =
    (r : HttpRequest) × (v.sent ≡ r ∷ w.sent)
    × IsRefresh env r
    × (r.body ≡ some (("refreshToken", token) ∷ []))

start_refresh-IsRefreshed :
    (env : Env) (session_id token : String) (w : World)
    → IsRefreshed env token w (start_refresh env session_id token w).1
unfolding start_refresh request refresh_request
start_refresh-IsRefreshed env session_id token w =
    let id = env.uuid (begin_refresh session_id w.shared).drawn in
    (
      refresh_request env id token,
      settle-sent env session_id _ _,
      refresh_request-IsRefresh env id token,
      refl,
    )

refresh_behind-IsRefreshed :
    (env : Env) (session_id token : String) (lock : Option ℕ) (w : World)
    → lock ≡ none
    → IsRefreshed env token w (refresh_behind env session_id token lock w).1
unfolding refresh_behind
refresh_behind-IsRefreshed env session_id token none w e =
    start_refresh-IsRefreshed env session_id token w
refresh_behind-IsRefreshed env session_id token (some promise) w e = cc

pub refresh_access_token-IsRefreshed :
    (env : Env) (session_id token : String) (w : World)
    → lookup session_id w.shared.refresh_locks ≡ none
    → IsRefreshed env token w (refresh_access_token env session_id token w).1
unfolding refresh_access_token refresh_with_lock
refresh_access_token-IsRefreshed env session_id token w e =
    after_bind (IsRefreshed env token w) (λ (refreshed : CacheEntry). pure refreshed.access_token)
      (refresh_with_lock env session_id token w) (λ a v h. h)
      (refresh_behind-IsRefreshed env session_id token _ w e)

module _ (env : Env) (test : HttpRequest → Bool) (n : ℕ)
    (few : (id token : String) → (if test (refresh_request env id token) then 1 else 0) ≤ n) where
  start_refresh-Adds :
      (session_id token : String) → Adds (count_sent test) n (start_refresh env session_id token)
  unfolding start_refresh request
  start_refresh-Adds session_id token w =
      rw (settle-sent env session_id)
        (ground (arith, few (env.uuid (begin_refresh session_id w.shared).drawn) token))

  refresh_behind-Adds :
      (session_id token : String) (lock : Option ℕ)
      → Adds (count_sent test) n (refresh_behind env session_id token lock)
  unfolding refresh_behind await_other
  refresh_behind-Adds session_id token (some p) w = omega arith
  refresh_behind-Adds session_id token none w = start_refresh-Adds session_id token w

  refresh_access_token-Adds :
      (session_id token : String)
      → Adds (count_sent test) n (refresh_access_token env session_id token)
  unfolding refresh_access_token refresh_with_lock
  refresh_access_token-Adds session_id token w = omega (
    arith,
    >>=-Adds (count_sent test) n 0 (refresh_with_lock env session_id token)
        (λ (refreshed : CacheEntry). pure refreshed.access_token)
        (λ v. refresh_behind-Adds session_id token _ v) (λ a v. omega arith) w,
  )

  resolve_behind-Adds :
      (session_id cookie : String) (now : ℤ) (entry : Option CacheEntry)
      → Adds (count_sent test) n (resolve_behind env session_id cookie now entry)
  unfolding resolve_behind
  resolve_behind-Adds session_id cookie now none w = refresh_access_token-Adds session_id cookie w
  resolve_behind-Adds session_id cookie now (some entry) w =
      ground (arith, refresh_access_token-Adds session_id entry.refresh_token w)

  pub resolve_access_token-Adds :
      (session_id cookie : String)
      → Adds (count_sent test) n (resolve_access_token env session_id cookie)
  unfolding resolve_access_token
  resolve_access_token-Adds session_id cookie w = resolve_behind-Adds session_id cookie _ _ w

  pub force_refresh-Adds :
      (session_id cookie : String) → Adds (count_sent test) n (force_refresh env session_id cookie)
  unfolding force_refresh
  force_refresh-Adds session_id cookie w =
      refresh_access_token-Adds session_id (current_or_cookie w.shared session_id cookie)
        (record w { shared = drop_entry session_id w.shared })

no_authorized :
    (env : Env) (id token : String)
    → (if is_authorized (refresh_request env id token) then 1 else 0) ≤ 0
no_authorized env id token = rw (refresh_request-not_authorized env id token) (omega arith)

-- Neither method sends a request that bears an access token, …
pub resolve_access_token-Adds_authorized :
    (env : Env) (session_id cookie : String)
    → Adds (count_sent is_authorized) 0 (resolve_access_token env session_id cookie)
resolve_access_token-Adds_authorized env =
    resolve_access_token-Adds env is_authorized 0 (no_authorized env)

pub force_refresh-Adds_authorized :
    (env : Env) (session_id cookie : String)
    → Adds (count_sent is_authorized) 0 (force_refresh env session_id cookie)
force_refresh-Adds_authorized env = force_refresh-Adds env is_authorized 0 (no_authorized env)

-- … and each sends one request at most.
pub resolve_access_token-Adds_all :
    (env : Env) (session_id cookie : String)
    → Adds (count_sent all_requests) 1 (resolve_access_token env session_id cookie)
resolve_access_token-Adds_all env =
    resolve_access_token-Adds env all_requests 1 (λ id token. omega arith)

pub force_refresh-Adds_all :
    (env : Env) (session_id cookie : String)
    → Adds (count_sent all_requests) 1 (force_refresh env session_id cookie)
force_refresh-Adds_all env = force_refresh-Adds env all_requests 1 (λ id token. omega arith)
