-- ===== src/Bff/Configuration.antt =====
-- bff/src/config/configuration.ts. The environment is given as one optional text for each variable.
-- A number is what `Number.parseInt` reads at the front of a text: blanks, a sign, then digits.
use Prim.Native.Char.{code}
use fernbank.Base.{
  ℕ, ◌+◌, ◌-◌, ◌*◌, ◌&&◌, Bool, List, String, Option, none, some, leb, eqb, map, if◌then◌else◌,
  or_else, [], ◌∷◌,
}
use fernbank.Base.Int.{ℤ, pos, ◌-ℤ◌}
use fernbank.Base.Text.{◌+++◌, split, trim, trim_start, is_empty, truthy}

pub data ConfigResult {ℓ} (A : Type ℓ) : Type ℓ where
  loaded : A → ConfigResult A
  failed : String → ConfigResult A

infixl 5 ◌>>=◌
abbrev ◌>>=◌ {ℓ κ} :
    {A : Type ℓ} {B : Type κ} → ConfigResult A → (A → ConfigResult B) → ConfigResult B
loaded a >>= f = f a
failed e >>= f = failed e

abbrev pub required : String → Option String → ConfigResult String
required name value = elim (truthy value) [
  | none ↦ failed ("Missing required environment variable: " +++ name)
  | some v ↦ loaded v
]

abbrev is_digit : ℕ → Bool
is_digit c = leb b'0' c && leb c b'9'

-- The digits at the front of a text, onto the value read so far.
parse_digits : ℕ → String → ℕ
parse_digits n String.[] = n
parse_digits n (String.◌∷◌ c s) =
    let more = parse_digits (n * 10 + (code c - b'0')) s in if is_digit (code c) then more else n

parse_unsigned : String → Option ℕ
unfolding parse_digits
parse_unsigned String.[] = none
parse_unsigned (String.◌∷◌ c s) =
    if is_digit (code c) then some (parse_digits 0 (String.◌∷◌ c s)) else none

abbrev negate : Option ℕ → Option ℤ
negate none = none
negate (some n) = some (pos 0 -ℤ pos n)

abbrev to_ℤ : Option ℕ → Option ℤ
to_ℤ none = none
to_ℤ (some n) = some (pos n)

parse_signed : String → Option ℤ
unfolding parse_unsigned
parse_signed String.[] = none
parse_signed (String.◌∷◌ c s) =
    if eqb (code c) b'-'
    then negate (parse_unsigned s)
    else to_ℤ (parse_unsigned (if eqb (code c) b'+' then s else String.◌∷◌ c s))

-- `Number.parseInt(value, 10)`, with none for NaN.
unfoldable pub parse_int : String → Option ℤ
unfolding parse_signed trim_start ◌-ℤ◌
parse_int s = parse_signed (trim_start s)

abbrev pub optional_int : Option String → ℤ → ConfigResult ℤ
optional_int value fallback = elim (truthy value) [
  | none ↦ loaded fallback
  | some v ↦ elim (parse_int v) [
    | none ↦ failed ("Expected an integer, got: " +++ v)
    | some n ↦ loaded n
  ]
]

-- The key that is generated when none is set is an argument.
abbrev pub load_or_generate_base64_key : String → Option String → String
load_or_generate_base64_key generated value = or_else (truthy value) generated

keep_nonempty : List String → List String
keep_nonempty [] = []
keep_nonempty (s ∷ ss) = let rest = keep_nonempty ss in if is_empty s then rest else s ∷ rest

pub record Environment : Type 0 where
  pub port : Option String
  pub backend_internal_base_url : Option String
  pub bff_cors_allowed_origins : Option String
  pub bff_session_encryption_key : Option String
  pub bff_session_cookie_domain : Option String
  pub bff_access_token_refresh_skew_ms : Option String
  pub bff_notification_poll_interval_ms : Option String
  pub internal_service_key : Option String

pub record Config : Type 0 where
  pub port : ℤ
  pub backend_internal_base_url : String
  pub cors_allowed_origins : List String
  pub session_encryption_key : String
  pub session_cookie_domain : Option String
  pub access_token_refresh_skew_ms : ℤ
  pub notification_poll_interval_ms : ℤ
  pub internal_service_key : Option String

-- The module's `config` value. `generated` is the base64 text of 32 random bytes.
unfoldable load_config : String → Environment → ConfigResult Config
unfolding keep_nonempty
load_config generated env = do
  port ← optional_int env.port (pos 4000)
  base_url ← required "BACKEND_INTERNAL_BASE_URL" env.backend_internal_base_url
  origins ← required "BFF_CORS_ALLOWED_ORIGINS" env.bff_cors_allowed_origins
  skew ← optional_int env.bff_access_token_refresh_skew_ms (pos 30000)
  interval ← optional_int env.bff_notification_poll_interval_ms (pos 5000)
  loaded (record {
    port = port;
    backend_internal_base_url = base_url;
    cors_allowed_origins = keep_nonempty (map trim (split b',' origins));
    session_encryption_key = load_or_generate_base64_key generated env.bff_session_encryption_key;
    session_cookie_domain = truthy env.bff_session_cookie_domain;
    access_token_refresh_skew_ms = skew;
    notification_poll_interval_ms = interval;
    internal_service_key = truthy env.internal_service_key;
  })
