-- ===== src/Bff/TokenCache/Seeding.antt =====
-- What access-token-cache.service.ts gives a session whose tokens have been put into the cache.
use fernbank.Base.{
  ◌≡◌, refl, sym, subst, ◌∙◌, ◌⊎◌, inl, inr, true, false, String, none, some, arith, Bool-cases,
}
use fernbank.Base.Int.{ℤ, ◌+ℤ◌, ◌-ℤ◌, ◌*ℤ◌, ◌<ℤ◌, ◌≤ℤ◌, ltb_ℤ, ltb_ℤ→lt, +ℤ_parts, -ℤ_parts}
use fernbank.Base.Dict.{lookup, lookup-insert_self}
use fernbank.Base.Text.{◌+++◌}
use fernbank.Base.Text.Laws.{Lacks, split-append}
use fernbank.Bff.Http.{CacheEntry, TokenPair, Result, ok}
use fernbank.Bff.World.{Env, World}
use fernbank.Bff.TokenCache.{
  decode_jwt_expiry_ms, entry_of, is_fresh, seed, refresh_access_token, resolve_behind,
  resolve_access_token,
}
use fernbank.Bff.TokenCache.Requests.{IsRefreshed, refresh_access_token-IsRefreshed}

-- A token of three parts, the middle one of which is read as claims with an expiry time in seconds.
abbrev pub IsTokenUntil : Env → String → ℤ → Type 0
IsTokenUntil env token exp =
    (head : String) × (segment : String) × (signature : String) × (token
      ≡ head +++ String.◌∷◌ "." (segment +++ String.◌∷◌ "." signature))
    × Lacks b'.' head
    × Lacks b'.' segment
    × (env.read_claims segment ≡ some (record { exp = some exp }))

decode_jwt_expiry_ms_lem :
    (env : Env) (token : String) (exp : ℤ)
    → IsTokenUntil env token exp
    → decode_jwt_expiry_ms env token ≡ some (exp *ℤ 1000)
unfolding decode_jwt_expiry_ms ◌*ℤ◌
decode_jwt_expiry_ms_lem env token exp (head, segment, signature, whole, plain, inner, claims) =
    rw
      (
        whole,
        decode_jwt_expiry_ms,
        split-append b'.' "." head (segment +++ String.◌∷◌ "." signature) refl plain,
        split-append b'.' "." segment signature refl inner,
      )
      (rw claims refl)

module _ (env : Env) (session_id cookie : String) (entry : CacheEntry) (w : World)
    (held : lookup session_id w.shared.cache ≡ some entry) where
  resolve_fresh :
      is_fresh env w.shared.now entry ≡ true
      → resolve_access_token env session_id cookie w ≡ (ok entry.access_token, w)
  unfolding resolve_access_token resolve_behind
  resolve_fresh fresh = rw held (rw fresh refl)

  resolve_old :
      is_fresh env w.shared.now entry ≡ false
      → resolve_access_token env session_id cookie w
        ≡ refresh_access_token env session_id entry.refresh_token w
  unfolding resolve_access_token resolve_behind
  resolve_old old = rw held (rw old refl)

is_before :
    (now expires_at skew : ℤ) → ltb_ℤ now (expires_at -ℤ skew) ≡ true → now +ℤ skew <ℤ expires_at
is_before now expires_at skew h =
    let lt = ltb_ℤ→lt now (expires_at -ℤ skew) h in
    omega (arith, lt, -ℤ_parts expires_at skew, +ℤ_parts now skew)

is_behind :
    (now expires_at skew : ℤ) → ltb_ℤ now (expires_at -ℤ skew) ≡ false → expires_at ≤ℤ now +ℤ skew
is_behind now expires_at skew h = ground (arith, h, -ℤ_parts expires_at skew, +ℤ_parts now skew)

is_fresh-entry_of :
    (env : Env) (now : ℤ) (pair : TokenPair) (exp : ℤ)
    → IsTokenUntil env pair.access_token exp
    → is_fresh env now (entry_of env now pair)
      ≡ ltb_ℤ now (exp *ℤ 1000 -ℤ env.config.access_token_refresh_skew_ms)
unfolding is_fresh entry_of
is_fresh-entry_of env now pair exp lasts =
    rw (decode_jwt_expiry_ms_lem env pair.access_token exp lasts) refl

-- What a session gets: its token as it is, with nothing sent and nothing changed, or a refresh.
abbrev pub IsResolved : Env → TokenPair → ℤ → World → Result String × World → Type 0
IsResolved env pair exp w r =
    ((w.shared.now +ℤ env.config.access_token_refresh_skew_ms <ℤ exp *ℤ 1000)
      × (r ≡ (ok pair.access_token, w)))
    ⊎ ((exp *ℤ 1000 ≤ℤ w.shared.now +ℤ env.config.access_token_refresh_skew_ms)
        × IsRefreshed env pair.refresh_token w r.1)

-- A pair of tokens has just been put into the cache, its access token a JSON web token with an expiry
-- time, and no refresh of the session is in flight. If the token lasts beyond now and the skew, the
-- session's next request gets it, with nothing sent and nothing changed; if it does not, that request
-- sends one refresh of the pair's refresh token. What its cookie says plays no part.
pub resolve_access_token-seed :
    (env : Env) (session_id cookie : String) (pair : TokenPair) (exp : ℤ) (w : World)
    → IsTokenUntil env pair.access_token exp
    → lookup session_id w.shared.refresh_locks ≡ none
    → IsResolved env pair exp
        (record w { shared = seed env session_id pair w.shared })
        (resolve_access_token env session_id cookie
          (record w { shared = seed env session_id pair w.shared }))
unfolding seed entry_of
resolve_access_token-seed env session_id cookie pair exp w lasts open_lock =
    let seeded : World = record w { shared = seed env session_id pair w.shared } in
    let entry = entry_of env w.shared.now pair in
    let skew = env.config.access_token_refresh_skew_ms in
    let held = lookup-insert_self session_id entry w.shared.cache in
    let fresh = is_fresh-entry_of env w.shared.now pair exp lasts in
    elim (Bool-cases (ltb_ℤ w.shared.now (exp *ℤ 1000 -ℤ skew))) [
      | inl early ↦ inl (
        is_before w.shared.now (exp *ℤ 1000) skew early,
        resolve_fresh env session_id cookie entry seeded held (fresh ∙ early),
      )
      | inr late ↦ inr (
        is_behind w.shared.now (exp *ℤ 1000) skew late,
        subst (λ r. IsRefreshed env pair.refresh_token seeded r.1)
            (sym (resolve_old env session_id cookie entry seeded held (fresh ∙ late)))
            (refresh_access_token-IsRefreshed env session_id pair.refresh_token seeded open_lock),
      )
    ]
