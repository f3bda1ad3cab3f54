-- ===== src/Web/Iban/Checksum.antt =====
-- The checksum of iban.ts finds every slip in one digit.
use mathlib.Core.List.{append_assoc}
use fernbank.Base.{
  ℕ, ◌+◌, ◌-◌, ◌*◌, ◌%◌, ◌≤◌, ◌<◌, ◌≡◌, ◌≢◌, refl, ap, sym, ◌∙◌, subst, true, false, List, [], ◌∷◌,
  ◌++◌, some, arith, Bool-cases, Option-cases, inl, inr,
}
use fernbank.Web.Iban.{
  is_digit, big_int_from, to_numeric_string, all_digits, is_valid_fernbank_account_number,
}

-- Reading on from two values with the same digits tells the values apart modulo 97.
step_back : (x y d : ℕ) → (x * 10 + d) % 97 ≡ (y * 10 + d) % 97 → x % 97 ≡ y % 97
step_back x y d h = omega arith

same_digit : (x d e : ℕ) → d < 10 → e < 10 → (x * 10 + d) % 97 ≡ (x * 10 + e) % 97 → d ≡ e
same_digit x d e p q h = omega arith

to_numeric_string-append :
    (xs ys : List ℕ) → to_numeric_string (xs ++ ys) ≡ to_numeric_string xs ++ to_numeric_string ys
unfolding to_numeric_string
to_numeric_string-append [] ys = refl
to_numeric_string-append (c ∷ xs) ys =
    rw (to_numeric_string-append xs ys)
      (sym (append_assoc _ (to_numeric_string xs) (to_numeric_string ys)))

-- A digit is not a letter, so it stays.
to_numeric_string-digit :
    (x : ℕ) (q : List ℕ) → is_digit x ≡ true → to_numeric_string (x ∷ q) ≡ x ∷ to_numeric_string q
unfolding to_numeric_string
to_numeric_string-digit x q h = ground arith

-- Reading up to a digit, and from there.
read_at :
    (n x v : ℕ) (p q : List ℕ)
    → big_int_from n (p ++ (x ∷ q)) ≡ some v
    → (m : ℕ) × (big_int_from n p ≡ some m) × (big_int_from (m * 10 + (x - b'0')) q ≡ some v)
unfolding big_int_from
read_at n x v [] q e = (n, refl, ground arith)
read_at n x v (c ∷ p) q e = elim (Bool-cases (is_digit c)) [
  | inl digit ↦
      let (m, first, rest) = read_at (n * 10 + (c - b'0')) x v p q (rw digit at e) in
      (m, rw digit first, rest)
  | inr other ↦ cc (rw other at e)
]

read_back :
    (u u' v v' : ℕ) (q : List ℕ)
    → big_int_from u q ≡ some v
    → big_int_from u' q ≡ some v'
    → v % 97 ≡ v' % 97
    → u % 97 ≡ u' % 97
unfolding big_int_from
read_back u u' v v' [] e f h = ground arith
read_back u u' v v' (c ∷ q) e f h = elim (Bool-cases (is_digit c)) [
  | inl digit ↦ step_back u u' (c - b'0') (
      read_back (u * 10 + (c - b'0')) (u' * 10 + (c - b'0')) v v' q (rw digit at e) (rw digit at f)
        h)
  | inr other ↦ cc (rw other at e)
]

some_injective : {a b : ℕ} → some a ≡ some b → a ≡ b
some_injective e = cc

is_digit_range : (x : ℕ) → is_digit x ≡ true → (b'0' ≤ x) × (x ≤ b'9')
is_digit_range x d = (grind arith, grind arith)

below_ten : (x : ℕ) → (b'0' ≤ x) × (x ≤ b'9') → x - b'0' < 10
below_ten x (lo, hi) = omega arith

digit_slip :
    (x y : ℕ) → (b'0' ≤ x) × (x ≤ b'9') → (b'0' ≤ y) × (y ≤ b'9') → x - b'0' ≡ y - b'0' → x ≡ y
digit_slip x y (lo, hi) (lo', hi') e = omega arith

-- Two numerals that leave the same remainder and differ in one place at most are the same.
numeral_slip :
    (x y v v' : ℕ) (p q : List ℕ)
    → is_digit x ≡ true
    → is_digit y ≡ true
    → big_int_from 0 (p ++ (x ∷ q)) ≡ some v
    → big_int_from 0 (p ++ (y ∷ q)) ≡ some v'
    → v % 97 ≡ v' % 97
    → x ≡ y
numeral_slip x y v v' p q dx dy e f h =
    let (m, first, rest) = read_at 0 x v p q e in
    let (m', first', rest') = read_at 0 y v' p q f in
    let same : m ≡ m' = some_injective (sym first ∙ first') in
    let back = read_back (m * 10 + (x - b'0')) (m' * 10 + (y - b'0')) v v' q rest rest' h in
    let digits = is_digit_range x dx in
    let digits' = is_digit_range y dy in
    digit_slip x y digits digits' (
      same_digit m (x - b'0') (y - b'0') (below_ten x digits) (below_ten y digits')
        (subst (λ k. (m * 10 + (x - b'0')) % 97 ≡ (k * 10 + (y - b'0')) % 97) (sym same) back))

-- What a valid number says: its BBAN is made of digits, and its numeral leaves the remainder one.
valid_parts :
    (a b c d : ℕ) (bban : List ℕ)
    → is_valid_fernbank_account_number (a ∷ b ∷ c ∷ d ∷ bban) ≡ true
    → (all_digits bban ≡ true)
      × (v : ℕ) × (big_int_from 0 (to_numeric_string (bban ++ (a ∷ b ∷ c ∷ d ∷ []))) ≡ some v)
      × (v % 97 ≡ 1)
unfolding is_valid_fernbank_account_number
valid_parts a b c d bban h = elim (Bool-cases (all_digits bban)) [
  | inl digits ↦
      elim (Option-cases (big_int_from 0 (to_numeric_string (bban ++ (a ∷ b ∷ c ∷ d ∷ []))))) [
        | inl fails ↦ ground arith
        | inr (v, reads) ↦ (digits, v, reads, ground arith)
      ]
  | inr others ↦ ground arith
]

all_digits-append :
    (p q : List ℕ) → all_digits (p ++ q) ≡ true → (all_digits p ≡ true) × (all_digits q ≡ true)
unfolding all_digits
all_digits-append [] q h = (refl, h)
all_digits-append (c ∷ p) q h = elim (Bool-cases (is_digit c)) [
  | inl digit ↦ let (front, back) = all_digits-append p q (ground arith) in (ground arith, back)
  | inr other ↦ ground arith
]

first_digit : (x : ℕ) (q : List ℕ) → all_digits (x ∷ q) ≡ true → is_digit x ≡ true
unfolding all_digits
first_digit x q h = ground arith

read_around :
    (x v : ℕ) (p q tail : List ℕ)
    → all_digits (p ++ (x ∷ q)) ≡ true
    → big_int_from 0 (to_numeric_string ((p ++ (x ∷ q)) ++ tail)) ≡ some v
    → (is_digit x ≡ true)
      × (big_int_from 0 (to_numeric_string p ++ (x ∷ to_numeric_string (q ++ tail))) ≡ some v)
unfolding all_digits
read_around x v p q tail digits reads =
    let dx : is_digit x ≡ true = first_digit x q ((all_digits-append p (x ∷ q) digits).1) in
    (
      dx,
      subst (λ ns. big_int_from 0 ns ≡ some v)
          (ap to_numeric_string (append_assoc p (x ∷ q) tail)
            ∙ to_numeric_string-append p (x ∷ (q ++ tail))
            ∙ ap (λ ns. to_numeric_string p ++ ns) (to_numeric_string-digit x (q ++ tail) dx))
          reads,
    )

accepted_twice :
    (a b c d x y : ℕ) (p q : List ℕ)
    → is_valid_fernbank_account_number (a ∷ b ∷ c ∷ d ∷ (p ++ (x ∷ q))) ≡ true
    → is_valid_fernbank_account_number (a ∷ b ∷ c ∷ d ∷ (p ++ (y ∷ q))) ≡ true
    → x ≡ y
accepted_twice a b c d x y p q h h' =
    let (digits, v, reads, one) = valid_parts a b c d (p ++ (x ∷ q)) h in
    let (digits', v', reads', one') = valid_parts a b c d (p ++ (y ∷ q)) h' in
    let (dx, rx) = read_around x v p q (a ∷ b ∷ c ∷ d ∷ []) digits reads in
    let (dy, ry) = read_around y v' p q (a ∷ b ∷ c ∷ d ∷ []) digits' reads' in
    numeral_slip x y v v' (to_numeric_string p) (to_numeric_string (q ++ (a ∷ b ∷ c ∷ d ∷ []))) dx
      dy rx ry (one ∙ sym one')

-- Where an account number is accepted, every number that differs from it in exactly one character
-- of the BBAN is refused.
pub is_valid_fernbank_account_number-slip :
    (a b c d x y : ℕ) (p q : List ℕ)
    → x ≢ y
    → is_valid_fernbank_account_number (a ∷ b ∷ c ∷ d ∷ (p ++ (x ∷ q))) ≡ true
    → is_valid_fernbank_account_number (a ∷ b ∷ c ∷ d ∷ (p ++ (y ∷ q))) ≡ false
is_valid_fernbank_account_number-slip a b c d x y p q differ h =
    elim (Bool-cases (is_valid_fernbank_account_number (a ∷ b ∷ c ∷ d ∷ (p ++ (y ∷ q))))) [
      | inl accepted ↦ absurd (differ (accepted_twice a b c d x y p q h accepted))
      | inr refused ↦ refused
    ]
