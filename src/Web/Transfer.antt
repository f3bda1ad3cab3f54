-- ===== src/Web/Transfer.antt =====
-- frontend/src/app/(app)/transfer/page.tsx: the state of the page and its handlers, cut at their awaits.
-- What a typed text becomes is the browser's; a text's UTF-16 units are what the schemas read.
pub mod Pages
pub mod Machine
pub mod Controls
pub mod Sending
pub mod Answers
pub mod Completion
use fernbank.Base.{
  ℕ, suc, ◌≡◌, refl, Bool, true, false, not, ◌&&◌, ◌||◌, List, [], ◌∷◌, String, Option, none, some,
  or_else, ◌==◌, if◌then◌else◌,
}
use fernbank.Base.Text.{◌+++◌, is_empty, strip_prefix, truthy}
use fernbank.Bff.Dashboard.{AccountResponse, MoneyDto}
use fernbank.Web.Api.{ApiResult, returns, throws, rejects, ApiError}
use fernbank.Web.Format.{format_money}
use fernbank.Web.Forms.{Units, Number, Issue, TransferInput, transfer_schema}
use fernbank.Web.View.{error_message}

pub data Step : Type 0 where
  source : Step
  recipient : Step
  amount : Step
  review : Step
  step_up : Step
  receipt : Step

pub data RecipientMode : Type 0 where
  payee : RecipientMode
  new : RecipientMode

pub record TransferResponse : Type 0 where
  pub transaction_id : Option String
  pub source_new_balance : Option MoneyDto
  pub executed_at : Option String

pub record PayeeResponse : Type 0 where
  pub id : Option String
  pub name : Option String
  pub target_account_number : Option String

-- The library's functions: the units of a text, `toUpperCase`, zod's check of a UUID, the numbers, the
-- format of an amount in a currency and of a time, and `endsWith`.
pub record Platform : Type 0 where
  pub units : String → Units
  pub upper_case : String → String
  pub refuses_uuid : Units → Option String
  pub number_value : Units → Number
  pub intl : String → String → Option String
  pub local_time : String → String
  pub ends_with : String → String → Bool

-- `accounts` and `payees` are the data of the two queries. The calls that run are the two mutations'; a
-- mutation `isPending` while a call of its runs. A verification that runs
-- carries the body that `handleStepUp` builds behind its await, from the values of the render that the
-- click saw. `sent`, `toasts` and `announcements` record what the page has done, the latest first.
pub record TransferPage : Type 0 where
  pub accounts : Option (List AccountResponse)
  pub is_accounts_pending : Bool
  pub payees : Option (List PayeeResponse)
  pub is_payees_pending : Bool
  pub step : Step
  pub source_account_id : String
  pub recipient_mode : RecipientMode
  pub selected_payee_id : String
  pub new_recipient_number : String
  pub amount : String
  pub currency : String
  pub description : String
  pub step_up_code : String
  pub receipt : Option TransferResponse
  pub transfers : List TransferInput
  pub verifications : List (Option TransferInput)
  pub sent : List TransferInput
  pub toasts : List String
  pub announcements : List String
  pub pushed : List String

abbrev pub mounted : TransferPage
mounted = record {
  accounts = none;
  is_accounts_pending = true;
  payees = none;
  is_payees_pending = true;
  step = source;
  source_account_id = "";
  recipient_mode = payee;
  selected_payee_id = "";
  new_recipient_number = "";
  amount = "";
  currency = "USD";
  description = "";
  step_up_code = "";
  receipt = none;
  transfers = [];
  verifications = [];
  sent = [];
  toasts = [];
  announcements = [];
  pushed = [];
}

-- Whether an optional text is the given one.
abbrev pub is_text : String → Option String → Bool
is_text s none = false
is_text s (some t) = t == s

unfoldable pub find_account : String → List AccountResponse → Option AccountResponse
find_account id [] = none
find_account id (a ∷ accounts) =
    let later = find_account id accounts in if is_text id a.id then some a else later

unfoldable pub find_payee : String → List PayeeResponse → Option PayeeResponse
find_payee id [] = none
find_payee id (p ∷ payees) =
    let later = find_payee id payees in if is_text id p.id then some p else later

unfoldable pub source_account : TransferPage → Option AccountResponse
unfolding find_account
source_account s = find_account s.source_account_id (or_else s.accounts [])

abbrev number_of : Option PayeeResponse → String
number_of none = ""
number_of (some p) = or_else p.target_account_number ""

unfoldable pub destination_account_number : TransferPage → String
unfolding find_payee
destination_account_number s = elim s.recipient_mode [
  | payee ↦ number_of (find_payee s.selected_payee_id (or_else s.payees []))
  | new ↦ s.new_recipient_number
]

-- `description || undefined`.
abbrev filled : (String → Units) → String → Option Units
filled units s = if is_empty s then none else some (units s)

-- What the form holds.
unfoldable pub details : Platform → TransferPage → TransferInput
unfolding destination_account_number
details env s = record {
  source_account_id = env.units s.source_account_id;
  destination_account_id = none;
  destination_account_number = some (env.units (destination_account_number s));
  amount = record { amount = env.units s.amount; currency = env.units s.currency };
  description = filled env.units s.description;
}

-- `parsed.success ? parsed.data : null`.
abbrev pub data_of : TransferInput → List Issue → Option TransferInput
data_of body [] = some body
data_of body (issue ∷ issues) = none

unfoldable pub build_transfer_body : Platform → TransferPage → Option TransferInput
unfolding details transfer_schema
build_transfer_body env s =
    data_of (details env s) (transfer_schema env.refuses_uuid env.number_value (details env s))

unfoldable pub is_step_up_required : Platform → Option ApiError → Bool
is_step_up_required env none = false
is_step_up_required env (some error) = elim error.type [
  | none ↦ false
  | some type ↦ env.ends_with type "step-up-required"
]

abbrev pub toast_error : String → TransferPage → TransferPage
toast_error message s = record s { toasts = message ∷ s.toasts }

-- `submitTransfer` up to its await.
abbrev pub submit_transfer : TransferInput → TransferPage → TransferPage
submit_transfer body s = record s { transfers = body ∷ s.transfers; sent = body ∷ s.sent }

-- The `catch` of `submitTransfer`; an error that is no ApiError is none.
unfoldable pub transfer_failed : Platform → Option ApiError → TransferPage → TransferPage
unfolding is_step_up_required error_message
transfer_failed env error s =
    if is_step_up_required env error
    then record s { step = step_up }
    else toast_error (error_message "Transfer failed" error) s

-- `submitTransfer` behind its await. A reply without content is an undefined result, of which no field
-- can be read.
unfoldable pub transfer_answered :
    Platform → ApiResult TransferResponse → TransferPage → TransferPage
unfolding transfer_failed format_money
transfer_answered env (returns (some result)) s = record s {
  receipt = some result;
  step = receipt;
  announcements =
      ("Transfer complete. New balance "
        +++ format_money env.intl result.source_new_balance
        +++ ".")
      ∷ s.announcements;
}
transfer_answered env (returns none) s =
    transfer_failed env none (record s { receipt = none; step = receipt })
transfer_answered env (throws error) s = transfer_failed env (some error) s
transfer_answered env rejects s = transfer_failed env none s

abbrev pub confirm_body : Option TransferInput → TransferPage → TransferPage
confirm_body none s = toast_error "Check the transfer details and try again" s
confirm_body (some body) s = submit_transfer body s

unfoldable pub handle_confirm : Platform → TransferPage → TransferPage
unfolding build_transfer_body
handle_confirm env s = confirm_body (build_transfer_body env s) s

-- `handleStepUp` up to its await, and behind it.
unfoldable pub handle_step_up : Platform → TransferPage → TransferPage
unfolding build_transfer_body
handle_step_up env s = record s { verifications = build_transfer_body env s ∷ s.verifications }

abbrev pub verified : Option TransferInput → TransferPage → TransferPage
verified none s = s
verified (some body) s = submit_transfer body s

unfoldable pub step_up_answered :
    {A : Type 0} → ApiResult A → Option TransferInput → TransferPage → TransferPage
unfolding error_message
step_up_answered (returns result) body s = verified body s
step_up_answered (throws error) body s =
    toast_error (error_message "Verification failed" (some error)) s
step_up_answered rejects body s = toast_error (error_message "Verification failed" none) s
