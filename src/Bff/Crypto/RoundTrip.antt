-- ===== src/Bff/Crypto/RoundTrip.antt =====
-- A cookie that the server writes is a cookie that it reads back.
use mathlib.Core.List.{append_assoc}
use fernbank.Base.{
  ℕ, zero, suc, ◌+◌, ◌≡◌, refl, ap, List, [], ◌∷◌, ◌++◌, some, arith, length, length-append, take,
  drop,
}
use fernbank.Bff.Http.{SessionPayload}
use fernbank.Bff.Crypto.{
  Crypto, Byte, iv_length, auth_tag_length, encrypt, decrypt, parse_plaintext, checked,
}

-- What the server relies on of Node: base64url and JSON are read back as written, and the cipher
-- opens what it sealed under the same key, with a tag of 16 bytes.
pub record CryptoLaws (c : Crypto) : Type 0 where
  pub base64url_back : (bytes : List Byte) → c.decode_base64url (c.encode_base64url bytes) ≡ bytes
  pub tag_length :
      (key iv plaintext : List Byte) → length (c.seal key iv plaintext).1 ≡ auth_tag_length
  pub opens :
      (key iv plaintext : List Byte)
      → c.open_sealed key iv (c.seal key iv plaintext).1 (c.seal key iv plaintext).0
        ≡ some plaintext
  pub json_back :
      (p : SessionPayload)
      → c.parse (c.stringify p)
        ≡ some (record { session_id = some p.session_id; refresh_token = some p.refresh_token })

take-append {ℓ} : {A : Type ℓ} (n : ℕ) (xs ys : List A) → length xs ≡ n → take n (xs ++ ys) ≡ xs
take-append n [] ys h = rw (← h) refl
take-append zero (x ∷ xs) ys h = absurd (omega arith)
take-append (suc n) (x ∷ xs) ys h = ap (λ t. x ∷ t) (take-append n xs ys (omega arith))

drop-append {ℓ} : {A : Type ℓ} (n : ℕ) (xs ys : List A) → length xs ≡ n → drop n (xs ++ ys) ≡ ys
drop-append n [] ys h = rw (← h) refl
drop-append zero (x ∷ xs) ys h = absurd (omega arith)
drop-append (suc n) (x ∷ xs) ys h = drop-append n xs ys (omega arith)

-- The three parts of a raw cookie.
sliced {ℓ} :
    {A : Type ℓ} (m n : ℕ) (xs ys zs : List A)
    → length xs ≡ m
    → length ys ≡ n
    → (take m (xs ++ (ys ++ zs)) ≡ xs)
      × (take n (drop m (xs ++ (ys ++ zs))) ≡ ys)
      × (drop (m + n) (xs ++ (ys ++ zs)) ≡ zs)
sliced m n xs ys zs h k = (
  take-append m xs (ys ++ zs) h,
  rw (drop-append m xs (ys ++ zs) h) (take-append n ys zs k),
  rw (← append_assoc xs ys zs)
      (drop-append (m + n) (xs ++ ys) zs (omega (arith, length-append xs ys))),
)

-- Under Node's documented behaviour, the payload of a session comes back from its cookie, whatever
-- the key and the 12 bytes of the initialisation vector.
pub decrypt-encrypt :
    (c : Crypto) (key iv : List Byte) (p : SessionPayload)
    → CryptoLaws c
    → length iv ≡ iv_length
    → decrypt c key (encrypt c key iv p) ≡ some p
unfolding decrypt encrypt
decrypt-encrypt c key iv p laws h =
    let (ciphertext, auth_tag) = c.seal key iv (c.stringify p) in
    let (first, second, third) =
      sliced iv_length auth_tag_length iv auth_tag ciphertext h (laws.tag_length key iv _) in
    rw (laws.base64url_back _) (
      rw (first, second, third)
        (rw (laws.opens key iv (c.stringify p), parse_plaintext)
          (rw (laws.json_back p, checked) refl)))
