-- ===== src/Web/Iban.antt =====
-- frontend/src/lib/validation/iban.ts: the check of an account number. A text is the list of its
-- UTF-16 code units.
pub mod Checksum
use fernbank.Base.{
  ℕ, ◌+◌, ◌-◌, ◌*◌, ◌/◌, ◌%◌, Bool, true, false, not, ◌&&◌, ◌||◌, List, [], ◌∷◌, ◌++◌, Option, none,
  some, leb, ltb, eqb, if◌then◌else◌, length, take, drop,
}

abbrev pub bban_length : ℕ
bban_length = 16

-- Two letters, two check digits and the BBAN.
abbrev pub account_number_length : ℕ
account_number_length = 2 + 2 + bban_length

abbrev pub is_digit : ℕ → Bool
is_digit c = leb b'0' c && leb c b'9'

-- `/[A-Za-z]/`.
abbrev pub is_upper : ℕ → Bool
is_upper c = leb b'A' c && leb c b'Z'

abbrev pub is_lower : ℕ → Bool
is_lower c = leb b'a' c && leb c b'z'

-- `char.toUpperCase().charCodeAt(0) - 'A'.charCodeAt(0) + 10`, for a letter.
abbrev pub letter_value : ℕ → ℕ
letter_value c = (if is_lower c then c - 32 else c) - b'A' + 10

-- The value lies between 10 and 35, so its decimal text has two digits.
abbrev pub two_digits : ℕ → List ℕ
two_digits n = (b'0' + n / 10) ∷ (b'0' + n % 10) ∷ []

unfoldable pub to_numeric_string : List ℕ → List ℕ
to_numeric_string [] = []
to_numeric_string (c ∷ cs) =
    (if is_lower c || is_upper c then two_digits (letter_value c) else c ∷ [])
    ++ to_numeric_string cs

-- `/^\d+$/`, on a text that is not empty.
unfoldable pub all_digits : List ℕ → Bool
all_digits [] = true
all_digits (c ∷ cs) = is_digit c && all_digits cs

-- `BigInt` of a text of digits, onto the value read so far; none where it throws.
unfoldable pub big_int_from : ℕ → List ℕ → Option ℕ
big_int_from n [] = some n
big_int_from n (c ∷ cs) =
    let rest = big_int_from (n * 10 + (c - b'0')) cs in if is_digit c then rest else none

abbrev pub is_one_mod_97 : Option ℕ → Bool
is_one_mod_97 none = false
is_one_mod_97 (some n) = eqb (n % 97) 1

-- The text that is read as a number: the BBAN, the country and the check digits.
abbrev pub rearranged : List ℕ → List ℕ
rearranged number = drop 4 number ++ (take 2 number ++ take 2 (drop 2 number))

unfoldable pub is_valid_fernbank_account_number : List ℕ → Bool
unfolding to_numeric_string all_digits big_int_from
is_valid_fernbank_account_number number =
    if not (eqb (length number) account_number_length)
    then false
    else if not (all_digits (take 2 (drop 2 number))) || not (all_digits (drop 4 number))
    then false
    else is_one_mod_97 (big_int_from 0 (to_numeric_string (rearranged number)))
