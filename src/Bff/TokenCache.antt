-- ===== src/Bff/TokenCache.antt =====
-- bff/src/session/access-token-cache.service.ts and bff/src/common/jwt.ts.
-- Each method is cut where it awaits. The parts between, which the event loop runs whole, are
-- functions on `Shared` (`begin_refresh`, `store_entry`, `release_lock`, …); the methods put them
-- together in the order of the source, and `TokenCache.Machine` interleaves them.
pub mod Machine
pub mod SingleFlight
pub mod Requests
pub mod Frames
pub mod Lifetime
pub mod Seeding
use fernbank.Base.{
  ℕ, suc, Bool, ◌&&◌, not, [], ◌∷◌, String, Option, none, some, or_else, get_elem?, if◌then◌else◌,
  ltb,
}
use fernbank.Base.Dict.{Dict, lookup, insert, remove, has}
use fernbank.Base.Int.{ℤ, pos, ◌+ℤ◌, ◌-ℤ◌, ◌*ℤ◌, ltb_ℤ}
use fernbank.Base.Text.{◌+++◌, split}
use fernbank.Bff.Http.{
  HttpRequest, HttpReply, CacheEntry, TokenPair, Result, ok, throws, upstream_http_exception,
  JwtClaims,
}
use fernbank.Bff.World.{
  Shared, Env, M, ◌>>=◌, ◌>>◌, pure, throw, shared, modify, draw, request, await_other,
}

abbrev pub correlation_id_header : String
correlation_id_header = "X-Correlation-Id"

abbrev pub stale_after_ms : ℤ
stale_after_ms = pos 600000

abbrev pub fallback_ttl_ms : ℤ
fallback_ttl_ms = pos 60000

-- `payload.exp * 1000`, where that is a number.
abbrev expiry_of : Option JwtClaims → Option ℤ
expiry_of none = none
expiry_of (some claims) = elim claims.exp [ none ↦ none | some exp ↦ some (exp *ℤ 1000) ]

-- The middle segment of the token; none stands for null.
unfoldable pub decode_jwt_expiry_ms : Env → String → Option ℤ
unfolding split ◌*ℤ◌
decode_jwt_expiry_ms env token = elim (get_elem? (split b'.' token) 1) [
  | none ↦ none
  | some segment ↦ expiry_of (env.read_claims segment)
]

-- The entry that a pair of tokens makes at a time.
unfoldable pub entry_of : Env → ℤ → TokenPair → CacheEntry
entry_of env now pair = record {
  access_token = pair.access_token;
  refresh_token = pair.refresh_token;
  expires_at = or_else (decode_jwt_expiry_ms env pair.access_token) (now +ℤ fallback_ttl_ms);
}

-- `entry.expiresAt - skew > Date.now()`.
unfoldable pub is_fresh : Env → ℤ → CacheEntry → Bool
is_fresh env now entry = ltb_ℤ now (entry.expires_at -ℤ env.config.access_token_refresh_skew_ms)

-- `this.cache.get(sessionId)?.refreshToken`.
unfoldable pub get_current_refresh_token : Shared → String → Option String
get_current_refresh_token s session_id = elim (lookup session_id s.cache) [
  | none ↦ none
  | some entry ↦ some entry.refresh_token
]

-- `entry?.refreshToken ?? cookieRefreshToken`.
unfoldable pub current_or_cookie : Shared → String → String → String
unfolding get_current_refresh_token
current_or_cookie s session_id cookie = or_else (get_current_refresh_token s session_id) cookie

unfoldable pub seed : Env → String → TokenPair → Shared → Shared
unfolding entry_of
seed env session_id pair s = record s {
  cache = insert session_id (entry_of env s.now pair) s.cache;
}

unfoldable pub invalidate : String → Shared → Shared
invalidate session_id s = record s {
  cache = remove session_id s.cache;
  refresh_locks = remove session_id s.refresh_locks;
}

-- None stands for the error that the method throws where no entry exists.
unfoldable pub overwrite_elevated : String → String → ℤ → Shared → Option Shared
overwrite_elevated session_id elevated_access_token expires_at s =
    elim (lookup session_id s.cache) [
      | none ↦ none
      | some existing ↦ some (record s {
        cache =
            insert session_id
              (record existing { access_token = elevated_access_token; expires_at = expires_at })
              s.cache;
      })
    ]

-- `now - entry.expiresAt > STALE_AFTER_MS && !this.refreshLocks.has(sessionId)`.
unfoldable pub is_stale : Shared → String → CacheEntry → Bool
is_stale s session_id entry =
    ltb_ℤ stale_after_ms (s.now -ℤ entry.expires_at) && not (has session_id s.refresh_locks)

-- The loop of `sweep` over the entries.
unfoldable pub swept : Shared → Dict CacheEntry → Dict CacheEntry
swept s [] = []
swept s ((session_id, entry) ∷ rest) =
    let kept = swept s rest in
    if is_stale s session_id entry then kept else (session_id, entry) ∷ kept

unfoldable pub sweep : Shared → Shared
sweep s = record s { cache = swept s s.cache }

-- The first part of `forceRefresh`, behind its reading of the current token.
unfoldable pub drop_entry : String → Shared → Shared
drop_entry session_id s = record s { cache = remove session_id s.cache }

-- `refreshWithLock` up to its first await: a new promise, and the lock on it.
unfoldable pub begin_refresh : String → Shared → Shared
begin_refresh session_id s = record s {
  refresh_locks = insert session_id s.next_promise s.refresh_locks;
  next_promise = suc s.next_promise;
}

-- The `.then` callback.
unfoldable pub store_entry : Env → String → TokenPair → Shared → Shared
store_entry env session_id pair s = record s {
  cache = insert session_id (entry_of env s.now pair) s.cache;
}

-- The `.finally` callback.
unfoldable pub release_lock : String → Shared → Shared
release_lock session_id s = record s { refresh_locks = remove session_id s.refresh_locks }

unfoldable pub refresh_request : Env → String → String → HttpRequest
refresh_request env correlation_id refresh_token = record {
  method = "POST";
  url = env.config.backend_internal_base_url +++ "/api/v1/auth/refresh";
  query = none;
  body = some (("refreshToken", refresh_token) ∷ []);
  headers = (correlation_id_header, correlation_id) ∷ [];
}

-- axios rejects a status outside 200–299; without a reply the status is 401.
unfoldable pub refresh_outcome : Env → Option HttpReply → Result TokenPair
refresh_outcome env none = throws (upstream_http_exception 401 none)
refresh_outcome env (some reply) =
    if ltb 199 reply.status && ltb reply.status 300
    then ok (env.parse_token_pair reply.body)
    else throws (upstream_http_exception reply.status (env.axios_problem reply.body))

-- The promise's callbacks, on the outcome of `callRefresh`.
unfoldable pub settle : Env → String → Result TokenPair → M CacheEntry
settle env session_id (throws e) = do modify (release_lock session_id); throw e
settle env session_id (ok pair) = do
  s ← shared
  modify (store_entry env session_id pair)
  modify (release_lock session_id)
  pure (entry_of env s.now pair)

unfoldable pub start_refresh : Env → String → String → M CacheEntry
unfolding refresh_request
start_refresh env session_id refresh_token = do
  modify (begin_refresh session_id)
  correlation_id ← draw env.uuid
  reply ← request env (refresh_request env correlation_id refresh_token)
  settle env session_id (refresh_outcome env reply)

-- The rest of `refreshWithLock`, on the promise that the lock names.
unfoldable pub refresh_behind : Env → String → String → Option ℕ → M CacheEntry
refresh_behind env session_id refresh_token (some in_flight) = await_other env in_flight
refresh_behind env session_id refresh_token none = start_refresh env session_id refresh_token

unfoldable pub refresh_with_lock : Env → String → String → M CacheEntry
unfolding refresh_behind
refresh_with_lock env session_id refresh_token w =
    refresh_behind env session_id refresh_token (lookup session_id w.shared.refresh_locks) w

unfoldable pub refresh_access_token : Env → String → String → M String
refresh_access_token env session_id refresh_token = do
  refreshed ← refresh_with_lock env session_id refresh_token
  pure refreshed.access_token

-- The rest of `resolveAccessToken`, on the time and the entry in the cache.
unfoldable pub resolve_behind : Env → String → String → ℤ → Option CacheEntry → M String
resolve_behind env session_id cookie_refresh_token now none =
    refresh_access_token env session_id cookie_refresh_token
resolve_behind env session_id cookie_refresh_token now (some entry) =
    if is_fresh env now entry
    then pure entry.access_token
    else refresh_access_token env session_id entry.refresh_token

unfoldable pub resolve_access_token : Env → String → String → M String
unfolding resolve_behind
resolve_access_token env session_id cookie_refresh_token w =
    resolve_behind env session_id cookie_refresh_token w.shared.now
      (lookup session_id w.shared.cache) w

unfoldable pub force_refresh : Env → String → String → M String
force_refresh env session_id cookie_refresh_token = do
  s ← shared
  modify (drop_entry session_id)
  refresh_access_token env session_id (current_or_cookie s session_id cookie_refresh_token)
