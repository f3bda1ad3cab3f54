-- ===== src/Web/Tests/FormRuns.antt =====
-- The theorems about the forms, for two that are filled in.
use fernbank.Base.{◌≡◌, ◌≤◌, refl, ◌-◌, [], ◌∷◌, String, Option, none, some, length}
use fernbank.Base.Int.{pos}
use fernbank.Web.Forms.{
  Units, Number, nan, finite, TransferInput, transfer_schema, transfer_fields, money_dto_schema,
  all_upper, ChangePasswordInput, change_password_schema, change_password_fields, same_units,
}
use fernbank.Web.Forms.Recipient.{
  transfer_schema-HasOneRecipient, HasOneRecipient, IsPositive, IsCurrencyCode,
  change_password_schema-same,
}

abbrev no_refusal : Units → Option String
no_refusal s = none

-- A text of one digit is read as its value.
abbrev read_number : Units → Number
read_number [] = finite (pos 0) (pos 0)
read_number (c ∷ []) = finite (pos (c - b'0')) (pos 0)
read_number (c ∷ cs) = nan

abbrev form : TransferInput
form = record {
  source_account_id = b'1' ∷ [];
  destination_account_id = some (b'2' ∷ []);
  destination_account_number = none;
  amount = record { amount = b'9' ∷ []; currency = b'E' ∷ b'U' ∷ b'R' ∷ [] };
  description = none;
}

transfer_schema-HasOneRecipient_example :
    HasOneRecipient form
    × IsPositive (read_number form.amount.amount)
    × IsCurrencyCode form.amount.currency
unfolding transfer_schema transfer_fields money_dto_schema all_upper
transfer_schema-HasOneRecipient_example =
    transfer_schema-HasOneRecipient no_refusal read_number form refl

abbrev password : Units
password = b'a' ∷ b'b' ∷ b'c' ∷ b'd' ∷ b'e' ∷ b'f' ∷ b'g' ∷ b'h' ∷ []

abbrev change : ChangePasswordInput
change = record {
  current_password = b'x' ∷ [];
  new_password = password;
  confirm_new_password = password;
}

change_password_schema-same_example : (password ≡ password) × (8 ≤ length password)
unfolding change_password_schema change_password_fields same_units
change_password_schema-same_example = change_password_schema-same change refl
