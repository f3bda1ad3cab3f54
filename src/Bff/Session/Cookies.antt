-- ===== src/Bff/Session/Cookies.antt =====
-- What the browser holds after a response, and that its session cookie is in step with the cache.
use fernbank.Base.{
  ℕ, suc, ◌≡◌, refl, List, [], ◌∷◌, String, Option, none, some, ◌==◌, if◌then◌else◌, length,
}
use fernbank.Bff.Crypto.{decrypt, iv_length}
use fernbank.Bff.Crypto.RoundTrip.{CryptoLaws, decrypt-encrypt}
use fernbank.Bff.Http.{SessionPayload, CookieWrite, sets, clears, ok}
use fernbank.Bff.World.{Env, World}
use fernbank.Bff.Session.{
  session_cookie_name, csrf_cookie_name, start_session, rotate_session, clear_session,
}

-- What a response's newest word on a cookie is: none if it says nothing, `some none` if it clears
-- the cookie.
abbrev pub last_write : String → List CookieWrite → Option (Option String)
last_write name [] = none
last_write name (sets n value options ∷ ws) =
    if n == name then some (some value) else last_write name ws
last_write name (clears n options ∷ ws) = if n == name then some none else last_write name ws

-- What the server relies on for its cookies.
pub record CookieLaws (env : Env) : Type 0 where
  pub crypto : CryptoLaws env.crypto
  pub iv : (n : ℕ) → length (env.random_iv n) ≡ iv_length

-- The response makes the browser hold a session cookie that the server reads as the payload.
abbrev pub Holds : Env → SessionPayload → World → Type 0
Holds env p w =
    (cookie : String) × (last_write session_cookie_name w.response.cookie_writes
      ≡ some (some cookie))
    × (decrypt env.crypto env.key cookie ≡ some p)

module _ (env : Env) (laws : CookieLaws env) where
  pub rotate_session-Holds :
      (session_id refresh_token : String) (w : World)
      → Holds env
          (record { session_id = session_id; refresh_token = refresh_token })
          (rotate_session env session_id refresh_token w).1
  unfolding rotate_session
  rotate_session-Holds session_id refresh_token w = (
    _,
    refl,
    decrypt-encrypt env.crypto env.key (env.random_iv w.shared.drawn) _ laws.crypto (laws.iv _),
  )

  -- A started session is in the browser's cookie, under the id that the caller gets.
  pub start_session-Holds :
      (refresh_token : String) (w : World)
      → ((start_session env refresh_token w).0 ≡ ok (env.uuid w.shared.drawn))
        × Holds env
            (record { session_id = env.uuid w.shared.drawn; refresh_token = refresh_token })
            (start_session env refresh_token w).1
        × ((start_session env refresh_token w).1.shared.cache ≡ w.shared.cache)
  unfolding start_session
  start_session-Holds refresh_token w = (
    refl,
    (
      _,
      refl,
      decrypt-encrypt env.crypto env.key (env.random_iv (suc w.shared.drawn)) _ laws.crypto
          (laws.iv _),
    ),
    refl,
  )

-- Both cookies are cleared, whatever was written before.
pub clear_session-clears :
    (env : Env) (w : World)
    → (last_write session_cookie_name (clear_session env w).1.response.cookie_writes ≡ some none)
      × (last_write csrf_cookie_name (clear_session env w).1.response.cookie_writes ≡ some none)
unfolding clear_session
clear_session-clears env w = (refl, refl)
