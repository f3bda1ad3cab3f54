-- ===== src/Bff/TokenCache/Lifetime.antt =====
-- How long an entry of access-token-cache.service.ts lasts.
use fernbank.Base.{
  ℕ, ◌≡◌, refl, ap, ◌∙◌, true, false, [], ◌∷◌, String, Option, none, some, ◌==◌, eq_iff,
  if◌then◌else◌, arith, ◌⊎◌, inl, inr, Option-cases, Bool-cases,
}
use fernbank.Base.Int.{ℤ, pos, ◌+ℤ◌, ◌-ℤ◌, ◌<ℤ◌, ◌≤ℤ◌, ltb_ℤ, ltb_ℤ→lt, +ℤ_parts, -ℤ_parts}
use fernbank.Base.Dict.{Dict, has, lookup, insert, lookup-insert, lookup-insert_self, IsMap}
use fernbank.Bff.Http.{HttpReply, CacheEntry, TokenPair, ok}
use fernbank.Bff.World.{Env, Shared}
use fernbank.Bff.TokenCache.{
  entry_of, is_stale, swept, sweep, overwrite_elevated, get_current_refresh_token, invalidate,
  store_entry, refresh_outcome,
}
use fernbank.Bff.TokenCache.Machine.{
  Machine, Flight, invalidates, replies, step, find_flight, reply_step, store_outcome,
}

-- What a sweep from `s` to `t` does for a session with the entry `entry`: it goes if more than ten
-- minutes have passed since it expired and no refresh of the session is in flight, and stays otherwise.
abbrev IsSweptEntry : String → CacheEntry → Shared → Shared → Type 0
IsSweptEntry session_id entry s t =
    ((entry.expires_at +ℤ pos 600000 <ℤ s.now)
      × (lookup session_id s.refresh_locks ≡ none)
      × (lookup session_id t.cache ≡ none))
    ⊎ ((s.now ≤ℤ entry.expires_at +ℤ pos 600000) × (lookup session_id t.cache ≡ some entry))
    ⊎ ((promise : ℕ) × (lookup session_id s.refresh_locks ≡ some promise)
        × (lookup session_id t.cache ≡ some entry))

abbrev pub IsSwept : String → Shared → Shared → Type 0
IsSwept session_id s t =
    ((lookup session_id s.cache ≡ none) × (lookup session_id t.cache ≡ none))
    ⊎ ((entry : CacheEntry) × (lookup session_id s.cache ≡ some entry)
        × IsSweptEntry session_id entry s t)

-- What is left of an entry.
abbrev unless_stale : Shared → String → Option CacheEntry → Option CacheEntry
unless_stale s session_id none = none
unless_stale s session_id (some entry) = if is_stale s session_id entry then none else some entry

lookup-swept :
    (s : Shared) (session_id : String) (entries : Dict CacheEntry)
    → IsMap entries
    → lookup session_id (swept s entries) ≡ unless_stale s session_id (lookup session_id entries)
unfolding lookup swept
lookup-swept s session_id [] h = refl
lookup-swept s session_id ((other, entry) ∷ rest) h =
    ground (arith, lookup-swept s session_id rest h.1, eq_iff other session_id)

is_older :
    (now expires_at : ℤ)
    → ltb_ℤ (pos 600000) (now -ℤ expires_at) ≡ true
    → expires_at +ℤ pos 600000 <ℤ now
is_older now expires_at h =
    let lt = ltb_ℤ→lt (pos 600000) (now -ℤ expires_at) h in
    omega (arith, lt, -ℤ_parts now expires_at, +ℤ_parts expires_at (pos 600000))

is_younger :
    (now expires_at : ℤ)
    → ltb_ℤ (pos 600000) (now -ℤ expires_at) ≡ false
    → now ≤ℤ expires_at +ℤ pos 600000
is_younger now expires_at h =
    ground (arith, h, -ℤ_parts now expires_at, +ℤ_parts expires_at (pos 600000))

is_stale-cases :
    (s : Shared) (session_id : String) (entry : CacheEntry)
    → ((entry.expires_at +ℤ pos 600000 <ℤ s.now)
        × (lookup session_id s.refresh_locks ≡ none)
        × (is_stale s session_id entry ≡ true))
      ⊎ ((s.now ≤ℤ entry.expires_at +ℤ pos 600000) × (is_stale s session_id entry ≡ false))
      ⊎ ((promise : ℕ) × (lookup session_id s.refresh_locks ≡ some promise)
          × (is_stale s session_id entry ≡ false))
unfolding is_stale has
is_stale-cases s session_id entry = elim (Option-cases (lookup session_id s.refresh_locks)) [
  | inr (promise, held) ↦ inr (inr (promise, held, rw (held, has) (ground arith)))
  | inl open_lock ↦ elim (Bool-cases (ltb_ℤ (pos 600000) (s.now -ℤ entry.expires_at))) [
    | inl old ↦
        inl (is_older s.now entry.expires_at old, open_lock, rw old (rw (open_lock, has) refl))
    | inr young ↦ inr (inl (is_younger s.now entry.expires_at young, rw young refl))
  ]
]

-- A sweep drops an entry exactly if more than ten minutes have passed since it expired and no refresh
-- of its session is in flight; every other entry stays as it is, and so does all but the cache.
pub lookup-sweep :
    (s : Shared) (session_id : String)
    → IsMap s.cache
    → IsSwept session_id s (sweep s) × (sweep s ≡ record s { cache = (sweep s).cache })
unfolding sweep
lookup-sweep s session_id h =
    let left = lookup-swept s session_id s.cache h in
    elim (Option-cases (lookup session_id s.cache)) [
      | inl absent ↦ (inl (absent, left ∙ ap (unless_stale s session_id) absent), refl)
      | inr (entry, held) ↦
          let kept = left ∙ ap (unless_stale s session_id) held in
          elim (is_stale-cases s session_id entry) [
            | inl (old, open_lock, e) ↦
                (inr (entry, held, inl (old, open_lock, kept ∙ rw e refl)), refl)
            | inr (inl (young, e)) ↦ (inr (entry, held, inr (inl (young, kept ∙ rw e refl))), refl)
            | inr (inr (promise, lock, e)) ↦
                (inr (entry, held, inr (inr (promise, lock, kept ∙ rw e refl))), refl)
          ]
    ]

-- Elevating a session that has an entry replaces its access token and expiry time, keeps its refresh
-- token and leaves every other session alone.
pub overwrite_elevated_lem :
    (session_id token : String) (expires_at : ℤ) (entry : CacheEntry) (s : Shared)
    → lookup session_id s.cache ≡ some entry
    → (s' : Shared) × (overwrite_elevated session_id token expires_at s ≡ some s')
      × ((other : String)
          → lookup other s'.cache ≡ (
              if session_id == other
              then some (record entry { access_token = token; expires_at = expires_at })
              else lookup other s.cache))
      × (get_current_refresh_token s' session_id ≡ some entry.refresh_token)
unfolding overwrite_elevated get_current_refresh_token
overwrite_elevated_lem session_id token expires_at entry s held = (
  record s {
    cache =
        insert session_id (record entry { access_token = token; expires_at = expires_at }) s.cache;
  },
  rw (held, overwrite_elevated) refl,
  (λ other. lookup-insert session_id other _ s.cache),
  rw
      (
        get_current_refresh_token,
        lookup-insert_self session_id
            (record entry { access_token = token; expires_at = expires_at }) s.cache,
      )
      refl,
)

reply_step-shared :
    (env : Env) (p : ℕ) (reply : HttpReply) (pair : TokenPair) (f : Flight) (m : Machine)
    → find_flight false p m.flights ≡ some f
    → refresh_outcome env (some reply) ≡ ok pair
    → (reply_step env p (some reply) m).shared ≡ store_entry env f.session_id pair m.shared
unfolding reply_step
reply_step-shared env p reply pair f m flying succeeds =
    rw (flying, reply_step) (rw (succeeds, store_outcome) refl)

-- A refresh that is in flight when its session is invalidated still puts its tokens into the cache
-- when the backend answers it.
pub replies-invalidates :
    (env : Env) (p : ℕ) (reply : HttpReply) (pair : TokenPair) (f : Flight) (m : Machine)
    → find_flight false p m.flights ≡ some f
    → refresh_outcome env (some reply) ≡ ok pair
    → lookup f.session_id
        (step env (step env m (invalidates f.session_id)) (replies p (some reply))).shared.cache
      ≡ some (entry_of env m.shared.now pair)
unfolding step store_entry invalidate
replies-invalidates env p reply pair f m flying succeeds =
    let gone = record m { shared = invalidate f.session_id m.shared } in
    ap (λ s. lookup f.session_id s.cache)
      (reply_step-shared env p reply pair f gone flying succeeds)
    ∙ lookup-insert_self f.session_id _ gone.shared.cache
