-- ===== src/Bff/Crypto.antt =====
-- bff/src/session/session-crypto.service.ts: the session cookie's sealed payload. The cipher,
-- base64 and JSON are Node's, so they are a record, `Crypto`. A byte is the character of its code, as
-- in Node's latin1.
pub mod RoundTrip
use Prim.Native.Char.{Char}
use fernbank.Base.{
  ℕ, ◌+◌, List, [], ◌++◌, String, Option, none, some, length, take, drop, eqb, if◌then◌else◌,
}
use fernbank.Bff.Http.{SessionPayload}

abbrev pub Byte : Type 0
Byte = Char

abbrev pub iv_length : ℕ
iv_length = 12

abbrev pub auth_tag_length : ℕ
auth_tag_length = 16

-- What `JSON.parse` of a payload gives: each field where it is a text.
pub record ParsedPayload : Type 0 where
  pub session_id : Option String
  pub refresh_token : Option String

-- `open_sealed` gives none where the tag does not fit, or where a call of the decipher throws.
pub record Crypto : Type 0 where
  pub encode_base64url : List Byte → String
  pub decode_base64url : String → List Byte
  pub decode_base64 : String → List Byte
  pub seal : (key iv plaintext : List Byte) → List Byte × List Byte
  pub open_sealed : (key iv auth_tag ciphertext : List Byte) → Option (List Byte)
  pub stringify : SessionPayload → List Byte
  pub parse : List Byte → Option ParsedPayload

-- The constructor: none where it throws.
unfoldable pub make_key : Crypto → String → Option (List Byte)
make_key c session_encryption_key =
    let key = c.decode_base64 session_encryption_key in
    if eqb (length key) 32 then some key else none

-- `iv` is the value of `randomBytes(IV_LENGTH)`.
unfoldable pub encrypt : Crypto → (key iv : List Byte) → SessionPayload → String
encrypt c key iv payload =
    let (ciphertext, auth_tag) = c.seal key iv (c.stringify payload) in
    c.encode_base64url (iv ++ (auth_tag ++ ciphertext))

-- Both fields must be texts.
abbrev pub checked : Option ParsedPayload → Option SessionPayload
checked none = none
checked (some parsed) = elim parsed.session_id [
  | none ↦ none
  | some id ↦ elim parsed.refresh_token [
    | none ↦ none
    | some token ↦ some (record { session_id = id; refresh_token = token })
  ]
]

abbrev pub parse_plaintext : Crypto → Option (List Byte) → Option SessionPayload
parse_plaintext c none = none
parse_plaintext c (some plaintext) = checked (c.parse plaintext)

unfoldable pub decrypt : Crypto → List Byte → String → Option SessionPayload
decrypt c key cookie_value =
    let raw = c.decode_base64url cookie_value in
    let iv = take iv_length raw in
    let auth_tag = take auth_tag_length (drop iv_length raw) in
    let ciphertext = drop (iv_length + auth_tag_length) raw in
    parse_plaintext c (c.open_sealed key iv auth_tag ciphertext)
