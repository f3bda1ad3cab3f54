-- ===== src/Web/Forms.antt =====
-- The schemas of frontend/src/lib/validation: transfer.schemas.ts, payee.schemas.ts, auth.schemas.ts and
-- security.schemas.ts. A schema gives the messages of the checks that fail, each with the field that it
-- stands at; zod's own checks of a UUID and of an e-mail address are arguments. Lengths count UTF-16
-- units, so a text is a list of them. None of these checks aborts, so all of them run.
pub mod Recipient
use fernbank.Base.{
  ℕ, Bool, true, false, not, ◌&&◌, ◌||◌, List, [], ◌∷◌, ◌++◌, String, Option, none, some, leb, eqb,
  length, if◌then◌else◌,
}
use fernbank.Base.Int.{ℤ, pos, ltb_ℤ}
use fernbank.Web.Iban.{is_valid_fernbank_account_number, is_upper}

abbrev pub Units : Type 0
Units = List ℕ

-- A field and the message.
pub record Issue : Type 0 where
  pub path : String
  pub message : String

abbrev pub issue_unless : Bool → String → String → List Issue
issue_unless passes path message =
    if passes then [] else record { path = path; message = message } ∷ []

abbrev pub min : ℕ → Units → Bool
min n s = leb n (length s)

unfoldable pub all_upper : Units → Bool
all_upper [] = true
all_upper (c ∷ cs) = is_upper c && all_upper cs

-- `/^[A-Z]{3}$/`.
abbrev pub is_currency : Units → Bool
is_currency s = eqb (length s) 3 && all_upper s

pub record MoneyInput : Type 0 where
  pub amount : Units
  pub currency : Units

-- The values of a JavaScript number: `finite m e` is m times two to the e (both zeros have the m 0).
pub data Number : Type 0 where
  nan : Number
  infinity : Number
  minus_infinity : Number
  finite : (m e : ℤ) → Number

-- `Number.isFinite(n)`.
abbrev pub is_finite : Number → Bool
is_finite nan = false
is_finite infinity = false
is_finite minus_infinity = false
is_finite (finite m e) = true

-- `n > 0`.
abbrev pub above_nought : Number → Bool
above_nought nan = false
above_nought infinity = true
above_nought minus_infinity = false
above_nought (finite m e) = ltb_ℤ (pos 0) m

-- `number_value` is the function `Number`, which reads a text as a number.
unfoldable pub money_dto_schema : (Units → Number) → MoneyInput → List Issue
unfolding all_upper
money_dto_schema number_value money =
    issue_unless (min 1 money.amount) "amount" "Enter an amount"
    ++ (issue_unless
          (is_finite (number_value money.amount) && above_nought (number_value money.amount))
          "amount" "Amount must be greater than zero"
        ++ issue_unless (is_currency money.currency) "currency"
            "Currency must be a 3-letter ISO code")

pub record TransferInput : Type 0 where
  pub source_account_id : Units
  pub destination_account_id : Option Units
  pub destination_account_number : Option Units
  pub amount : MoneyInput
  pub description : Option Units

-- `.optional()`.
abbrev pub optional : (Units → List Issue) → Option Units → List Issue
optional check none = []
optional check (some s) = check s

-- `refuses_uuid` gives zod's message where a text is no UUID.
abbrev issue_of : String → Option String → List Issue
issue_of path none = []
issue_of path (some message) = record { path = path; message = message } ∷ []

abbrev pub uuid_issues : (Units → Option String) → String → Units → List Issue
uuid_issues refuses_uuid path s = issue_of path (refuses_uuid s)

abbrev pub account_number_issues : Units → List Issue
account_number_issues s =
    issue_unless (is_valid_fernbank_account_number s) "destinationAccountNumber"
      "Not a valid fernbank account number"

-- `!!value`: a text that is there and not empty.
abbrev pub given : Option Units → Bool
given none = false
given (some []) = false
given (some (c ∷ cs)) = true

-- `a !== b`.
abbrev pub differ : Bool → Bool → Bool
differ true b = not b
differ false b = b

unfoldable pub transfer_fields :
    (Units → Option String) → (Units → Number) → TransferInput → List Issue
unfolding money_dto_schema
transfer_fields refuses_uuid number_value data_in =
    uuid_issues refuses_uuid "sourceAccountId" data_in.source_account_id
    ++ (optional (uuid_issues refuses_uuid "destinationAccountId") data_in.destination_account_id
        ++ (optional account_number_issues data_in.destination_account_number
            ++ money_dto_schema number_value data_in.amount))

unfoldable pub transfer_schema :
    (Units → Option String) → (Units → Number) → TransferInput → List Issue
unfolding transfer_fields
transfer_schema refuses_uuid number_value data_in =
    transfer_fields refuses_uuid number_value data_in
    ++ issue_unless
        (differ (given data_in.destination_account_id) (given data_in.destination_account_number))
        "destinationAccountNumber" "Choose a saved payee or enter a new recipient, not both"

pub record PayeeInput : Type 0 where
  pub name : Units
  pub target_account_number : Units

unfoldable pub payee_schema : PayeeInput → List Issue
payee_schema payee =
    issue_unless (min 1 payee.name) "name" "Enter a name for this payee"
    ++ (issue_unless (min 1 payee.target_account_number) "targetAccountNumber"
          "Enter an account number"
        ++ issue_unless (is_valid_fernbank_account_number payee.target_account_number)
            "targetAccountNumber" "Not a valid fernbank account number")

pub record RegisterInput : Type 0 where
  pub full_name : Units
  pub email : Units
  pub password : Units

unfoldable pub register_schema : (Units → Bool) → RegisterInput → List Issue
register_schema is_email register =
    issue_unless (min 1 register.full_name) "fullName" "Full name is required"
    ++ (issue_unless (is_email register.email) "email" "Enter a valid email address"
        ++ issue_unless (min 8 register.password) "password"
            "Password must be at least 8 characters")

pub record LoginInput : Type 0 where
  pub email : Units
  pub password : Units

unfoldable pub login_schema : LoginInput → List Issue
login_schema login =
    issue_unless (min 1 login.email) "email" "Email is required"
    ++ issue_unless (min 1 login.password) "password" "Password is required"

pub record MfaVerifyInput : Type 0 where
  pub mfa_token : Units
  pub code : Units

unfoldable pub mfa_verify_schema : MfaVerifyInput → List Issue
mfa_verify_schema input =
    issue_unless (min 1 input.mfa_token) "mfaToken" "Missing MFA challenge"
    ++ issue_unless (min 1 input.code) "code" "Enter your authentication code"

unfoldable pub mfa_enroll_confirm_schema : Units → List Issue
mfa_enroll_confirm_schema code = issue_unless (min 1 code) "code" "Enter your authentication code"

unfoldable pub same_units : Units → Units → Bool
same_units [] [] = true
same_units (c ∷ cs) (d ∷ ds) = eqb c d && same_units cs ds
same_units [] (d ∷ ds) = false
same_units (c ∷ cs) [] = false

pub record ChangePasswordInput : Type 0 where
  pub current_password : Units
  pub new_password : Units
  pub confirm_new_password : Units

unfoldable pub change_password_fields : ChangePasswordInput → List Issue
change_password_fields input =
    issue_unless (min 1 input.current_password) "currentPassword" "Enter your current password"
    ++ (issue_unless (min 8 input.new_password) "newPassword"
          "Password must be at least 8 characters"
        ++ issue_unless (min 1 input.confirm_new_password) "confirmNewPassword"
            "Confirm your new password")

unfoldable pub change_password_schema : ChangePasswordInput → List Issue
unfolding change_password_fields same_units
change_password_schema input =
    change_password_fields input
    ++ issue_unless (same_units input.new_password input.confirm_new_password) "confirmNewPassword"
        "Passwords don't match"
