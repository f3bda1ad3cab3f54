-- ===== src/Bff/TokenCache/Frames.antt =====
-- What the methods of access-token-cache.service.ts leave alone: all but the shared state and the
-- refreshes among the requests sent.
use fernbank.Base.{ℕ, ◌∷◌, String, Option, none, some, Bool-cases, inl, inr}
use fernbank.Base.Int.{ℤ}
use fernbank.Bff.Http.{TokenPair, Result, ok, throws, CacheEntry}
use fernbank.Bff.World.{Env, World, Shared, pure, request, await_other}
use fernbank.Bff.World.Rules.{Preserves, >>=-Preserves}
use fernbank.Bff.TokenCache.{
  refresh_request, settle, start_refresh, refresh_behind, refresh_with_lock, refresh_access_token,
  resolve_behind, resolve_access_token, force_refresh, is_fresh,
}

module _ (env : Env) (P : World → Type 0)
    (any_shared : (w : World) (s : Shared) → P w → P (record w { shared = s }))
    (any_refresh : (w : World) (id token : String)
      → P w
      → P (record w { sent = refresh_request env id token ∷ w.sent })) where
  settle-Preserves :
      (session_id : String) (outcome : Result TokenPair)
      → Preserves P (settle env session_id outcome)
  unfolding settle
  settle-Preserves session_id (ok pair) w h = any_shared w _ h
  settle-Preserves session_id (throws e) w h = any_shared w _ h

  start_refresh-Preserves :
      (session_id token : String) → Preserves P (start_refresh env session_id token)
  unfolding start_refresh request
  start_refresh-Preserves session_id token w h =
      settle-Preserves session_id _ _ (any_shared _ _ (any_refresh w _ token h))

  refresh_behind-Preserves :
      (session_id token : String) (lock : Option ℕ)
      → Preserves P (refresh_behind env session_id token lock)
  unfolding refresh_behind await_other
  refresh_behind-Preserves session_id token (some p) w h = any_shared w _ h
  refresh_behind-Preserves session_id token none w h = start_refresh-Preserves session_id token w h

  refresh_access_token-Preserves :
      (session_id token : String) → Preserves P (refresh_access_token env session_id token)
  unfolding refresh_access_token refresh_with_lock
  refresh_access_token-Preserves session_id token =
      >>=-Preserves P (refresh_with_lock env session_id token)
        (λ (refreshed : CacheEntry). pure refreshed.access_token)
        (λ w. refresh_behind-Preserves session_id token _ w) (λ a w h. h)

  resolve_behind-Preserves :
      (session_id cookie : String) (now : ℤ) (entry : Option CacheEntry)
      → Preserves P (resolve_behind env session_id cookie now entry)
  unfolding resolve_behind
  resolve_behind-Preserves session_id cookie now none w h =
      refresh_access_token-Preserves session_id cookie w h
  resolve_behind-Preserves session_id cookie now (some entry) w h =
      elim (Bool-cases (is_fresh env now entry)) [
        | inl fresh ↦ rw fresh h
        | inr old ↦ rw old (refresh_access_token-Preserves session_id entry.refresh_token w h)
      ]

  pub resolve_access_token-Preserves :
      (session_id cookie : String) → Preserves P (resolve_access_token env session_id cookie)
  unfolding resolve_access_token
  resolve_access_token-Preserves session_id cookie w h =
      resolve_behind-Preserves session_id cookie _ _ w h

  pub force_refresh-Preserves :
      (session_id cookie : String) → Preserves P (force_refresh env session_id cookie)
  unfolding force_refresh
  force_refresh-Preserves session_id cookie w h =
      refresh_access_token-Preserves session_id _ _ (any_shared w _ h)
