-- ===== src/Bff/Csrf.antt =====
-- bff/src/csrf/csrf.guard.ts: the double-submit check.
pub mod Guard
use fernbank.Base.{
  Bool, true, false, not, ◌&&◌, ◌||◌, String, Option, none, some, ◌==◌, if◌then◌else◌, ◌≡◌, refl,
  ◌↔◌, ◌⊎◌, ◌≢◌, arith, eq_iff, inl, inr, ◌∷◌, [],
}
use fernbank.Base.Dict.{lookup}
use fernbank.Base.Text.{truthy, is_empty}
use fernbank.Bff.Http.{Request, Result, ok, throws, Exception, http, object, problem}
use fernbank.Bff.Session.{csrf_cookie_name}
use fernbank.Bff.Common.{first_value}

abbrev pub csrf_header_name : String
csrf_header_name = "x-csrf-token"

-- `SAFE_METHODS.has(method)`.
unfoldable pub is_safe_method : String → Bool
is_safe_method method = method == "GET" || (method == "HEAD" || method == "OPTIONS")

abbrev pub csrf_mismatch : Exception
csrf_mismatch = http 403 (object (problem "csrf-token-mismatch" "Missing or invalid CSRF token"))

-- `!cookieToken || !headerToken || cookieToken !== headerToken`, on the tokens tested for truth.
unfoldable pub compare_tokens : Option String → Option String → Result (Unit {0})
compare_tokens none header = throws csrf_mismatch
compare_tokens (some cookie_token) none = throws csrf_mismatch
compare_tokens (some cookie_token) (some header_token) =
    if cookie_token == header_token then ok tt else throws csrf_mismatch

abbrev is_none {ℓ} : {A : Type ℓ} → Option A → Bool
is_none none = true
is_none (some a) = false

unfoldable pub can_activate : Request → Result (Unit {0})
unfolding is_safe_method compare_tokens
can_activate req =
    if is_safe_method req.method || is_none req.fernbank_session
    then ok tt
    else compare_tokens (truthy (lookup csrf_cookie_name req.cookies))
        (truthy (first_value (lookup csrf_header_name req.headers)))
