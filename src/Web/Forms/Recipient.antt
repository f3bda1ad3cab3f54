-- ===== src/Web/Forms/Recipient.antt =====
-- What a form that the schemas accept is known to hold.
use fernbank.Base.{
  ◌≡◌, refl, ◌⊎◌, inl, inr, ◌≤◌, Bool, true, false, List, [], ◌∷◌, ◌++◌, String, Option, none, some,
  leb→le, length, arith, ◌&&◌, All,
}
use fernbank.Base.Int.{ℤ, pos, ◌<ℤ◌, ltb_ℤ→lt}
use fernbank.Web.Iban.{is_valid_fernbank_account_number}
use fernbank.Web.Forms.{
  Units, Number, nan, infinity, minus_infinity, finite, is_finite, above_nought, all_upper, Issue,
  issue_unless, min, money_dto_schema, TransferInput, optional, uuid_issues, account_number_issues,
  given, differ, transfer_fields, transfer_schema, is_currency, ChangePasswordInput,
  change_password_fields, change_password_schema, same_units,
}

append-empty : (xs ys : List Issue) → xs ++ ys ≡ [] → (xs ≡ []) × (ys ≡ [])
append-empty [] ys e = (refl, e)
append-empty (x ∷ xs) ys e = cc

issue_unless-empty :
    (passes : Bool) (path message : String) → issue_unless passes path message ≡ [] → passes ≡ true
issue_unless-empty true path message e = refl
issue_unless-empty false path message e = cc

-- Exactly one way to name the recipient is used.
abbrev pub HasOneRecipient : TransferInput → Type 0
HasOneRecipient form =
    ((given form.destination_account_id ≡ true) × (given form.destination_account_number ≡ false))
    ⊎ ((given form.destination_account_id ≡ false)
        × (number : Units) × (form.destination_account_number ≡ some number)
        × (is_valid_fernbank_account_number number ≡ true))

recipient :
    (by_id by_number : Option Units)
    → optional account_number_issues by_number ≡ []
    → differ (given by_id) (given by_number) ≡ true
    → ((given by_id ≡ true) × (given by_number ≡ false))
      ⊎ ((given by_id ≡ false)
          × (number : Units) × (by_number ≡ some number)
          × (is_valid_fernbank_account_number number ≡ true))
recipient by_id none valid e = inl (ground arith, refl)
recipient by_id (some []) valid e = inl (ground arith, refl)
recipient by_id (some (c ∷ cs)) valid e =
    inr (ground arith, c ∷ cs, refl, issue_unless-empty _ _ _ valid)

-- A finite number above zero.
abbrev pub IsPositive : Number → Type 0
IsPositive n = (m : ℤ) × (e : ℤ) × (n ≡ finite m e) × (pos 0 <ℤ m)

above_nought-IsPositive : (n : Number) → (is_finite n && above_nought n) ≡ true → IsPositive n
above_nought-IsPositive nan h = cc
above_nought-IsPositive infinity h = cc
above_nought-IsPositive minus_infinity h = cc
above_nought-IsPositive (finite m e) h = (m, e, refl, ltb_ℤ→lt (pos 0) m h)

-- A text of three capitals from A to Z.
abbrev pub IsCurrencyCode : Units → Type 0
IsCurrencyCode s = (length s ≡ 3) × All (λ c. (65 ≤ c) × (c ≤ 90)) s

all_upper-All : (s : Units) → all_upper s ≡ true → All (λ c. (65 ≤ c) × (c ≤ 90)) s
unfolding all_upper
all_upper-All [] h = tt
all_upper-All (c ∷ cs) h = ground (arith, all_upper-All cs)

is_currency-IsCurrencyCode : (s : Units) → is_currency s ≡ true → IsCurrencyCode s
is_currency-IsCurrencyCode s h = ground (arith, all_upper-All s)

-- A transfer form without an issue names its recipient in exactly one way, by a saved account or by an
-- account number whose checksum is right; what `Number` reads of its amount is finite and above zero;
-- and its currency is three letters from A to Z.
pub transfer_schema-HasOneRecipient :
    (refuses_uuid : Units → Option String) (number_value : Units → Number) (form : TransferInput)
    → transfer_schema refuses_uuid number_value form ≡ []
    → HasOneRecipient form
      × IsPositive (number_value form.amount.amount)
      × IsCurrencyCode form.amount.currency
unfolding transfer_schema transfer_fields money_dto_schema
transfer_schema-HasOneRecipient refuses_uuid number_value form e =
    let (fields, refined) = append-empty (transfer_fields refuses_uuid number_value form) _ e in
    let (source, destination) =
      append-empty (uuid_issues refuses_uuid "sourceAccountId" form.source_account_id) _ fields in
    let (by_id, rest) =
      append-empty
        (optional (uuid_issues refuses_uuid "destinationAccountId") form.destination_account_id) _
        destination in
    let (by_number, money) =
      append-empty (optional account_number_issues form.destination_account_number) _ rest in
    let (entered, checks) =
      append-empty (issue_unless (min 1 form.amount.amount) "amount" "Enter an amount") _ money in
    let (positive, currency) =
      append-empty
        (issue_unless
          (is_finite (number_value form.amount.amount)
            && above_nought (number_value form.amount.amount))
          "amount" "Amount must be greater than zero")
        _ checks in
    (
      recipient form.destination_account_id form.destination_account_number by_number
          (issue_unless-empty _ _ _ refined),
      above_nought-IsPositive (number_value form.amount.amount) (issue_unless-empty _ _ _ positive),
      is_currency-IsCurrencyCode form.amount.currency (issue_unless-empty _ _ _ currency),
    )

same_units-≡ : (xs ys : Units) → same_units xs ys ≡ true → xs ≡ ys
unfolding same_units
same_units-≡ [] [] e = refl
same_units-≡ [] (y ∷ ys) e = cc
same_units-≡ (x ∷ xs) [] e = cc
same_units-≡ (x ∷ xs) (y ∷ ys) e = ground (arith, same_units-≡ xs ys)

-- A form for a new password without an issue has it twice, with at least eight units.
pub change_password_schema-same :
    (input : ChangePasswordInput)
    → change_password_schema input ≡ []
    → (input.new_password ≡ input.confirm_new_password) × (8 ≤ length input.new_password)
unfolding change_password_schema change_password_fields
change_password_schema-same input e =
    let (fields, refined) = append-empty (change_password_fields input) _ e in
    let (current, rest) =
      append-empty
        (issue_unless (min 1 input.current_password) "currentPassword"
          "Enter your current password")
        _ fields in
    let (fresh, confirmed) =
      append-empty
        (issue_unless (min 8 input.new_password) "newPassword"
          "Password must be at least 8 characters")
        _ rest in
    (
      same_units-≡ _ _ (issue_unless-empty _ _ _ refined),
      leb→le 8 _ (issue_unless-empty _ _ _ fresh),
    )
