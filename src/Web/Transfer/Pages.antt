-- ===== src/Web/Transfer/Pages.antt =====
-- What frontend/src/app/(app)/transfer/page.tsx shows in each of its steps, and what its controls do.
use fernbank.Base.{
  ℕ, suc, Bool, true, false, not, ◌||◌, List, [], ◌∷◌, ◌++◌, String, Option, none, some, or_else,
  leb, map, if◌then◌else◌,
}
use fernbank.Base.Text.{◌+++◌, is_empty}
use fernbank.Bff.Dashboard.{AccountResponse, MoneyDto}
use fernbank.Web.Format.{format_money}
use fernbank.Web.Iban.{is_valid_fernbank_account_number}
use fernbank.Web.View.{Control, text, placeholder, progress, button, input, select}
use fernbank.Web.Transfer.{
  Step, source, recipient, amount, review, step_up, receipt, RecipientMode, payee, new,
  TransferResponse, PayeeResponse, Platform, TransferPage, source_account,
  destination_account_number, build_transfer_body, handle_confirm, handle_step_up,
}

pub data Action : Type 0 where
  goes : Step → Action
  chooses_source : String → Action
  switches : RecipientMode → Action
  chooses_payee : String → Action
  types_recipient : String → Action
  types_amount : String → Action
  types_currency : String → Action
  types_description : String → Action
  types_code : String → Action
  confirms : Action
  verifies : Action
  leaves : Action

-- The handlers of the controls.
unfoldable pub act : Platform → TransferPage → Action → TransferPage
unfolding handle_confirm handle_step_up
act env s (goes step) = record s { step = step }
act env s (chooses_source id) = record s { source_account_id = id }
act env s (switches mode) = record s { recipient_mode = mode }
act env s (chooses_payee id) = record s { selected_payee_id = id }
act env s (types_recipient typed) = record s { new_recipient_number = env.upper_case typed }
act env s (types_amount typed) = record s { amount = typed }
act env s (types_currency typed) = record s { currency = env.upper_case typed }
act env s (types_description typed) = record s { description = typed }
act env s (types_code typed) = record s { step_up_code = typed }
act env s confirms = handle_confirm env s
act env s verifies = handle_step_up env s
act env s leaves = record s { pushed = "/dashboard" ∷ s.pushed }

-- A mutation's `isPending`.
abbrev pub is_pending : {A : Type 0} → List A → Bool
is_pending [] = false
is_pending (call ∷ calls) = true

abbrev is_none : {A : Type 0} → Option A → Bool
is_none none = true
is_none (some a) = false

-- A text that may be undefined, in the markup.
abbrev shown : Option String → String
shown s = or_else s ""

abbrev pub account_option : Platform → AccountResponse → String × String
account_option env a = (
  shown a.id,
  shown a.type +++ " · " +++ shown a.account_number +++ " · " +++ format_money env.intl a.balance,
)

abbrev pub source_select : Platform → String → Bool → Option (List AccountResponse) → Control Action
source_select env id true accounts = placeholder
source_select env id false accounts =
    select id (("", "Select an account") ∷ map (account_option env) (or_else accounts []))
      chooses_source

unfoldable pub source_step : Platform → TransferPage → List (Control Action)
source_step env s =
    text "From account"
    ∷ source_select env s.source_account_id s.is_accounts_pending s.accounts
    ∷ button "Continue" (is_empty s.source_account_id) (goes recipient)
    ∷ []

abbrev payee_option : PayeeResponse → String × String
payee_option p = (shown p.id, shown p.name +++ " · " +++ shown p.target_account_number)

abbrev pub listed_payees : String → List PayeeResponse → Control Action
listed_payees id [] =
    text "No saved payees yet — add one from the Payees page, or use a new recipient."
listed_payees id (p ∷ payees) =
    select id (("", "Select a payee") ∷ map payee_option (p ∷ payees)) chooses_payee

abbrev pub payee_select : String → Bool → Option (List PayeeResponse) → Control Action
payee_select id true payees = placeholder
payee_select id false payees = listed_payees id (or_else payees [])

abbrev pub recipient_tab : TransferPage → List (Control Action)
recipient_tab s = elim s.recipient_mode [
  | payee ↦ payee_select s.selected_payee_id s.is_payees_pending s.payees ∷ []
  | new ↦ input "Recipient account number" s.new_recipient_number types_recipient ∷ []
]

unfoldable pub recipient_step : Platform → TransferPage → List (Control Action)
recipient_step env s =
    button "Saved payee" false (switches payee)
    ∷ button "New recipient" false (switches new)
    ∷ (recipient_tab s
        ++ (button "Back" false (goes source)
            ∷ button "Continue"
                (not (is_valid_fernbank_account_number (env.units (destination_account_number s))))
                (goes amount)
            ∷ []))

unfoldable pub amount_step : Platform → TransferPage → List (Control Action)
amount_step env s =
    input "Amount" s.amount types_amount
    ∷ input "Currency" s.currency types_currency
    ∷ input "Reference (optional)" s.description types_description
    ∷ button "Back" false (goes recipient)
    ∷ button "Review" (is_none (build_transfer_body env s)) (goes review)
    ∷ []

abbrev type_and_number : Option AccountResponse → String
type_and_number none = " · "
type_and_number (some a) = shown a.type +++ " · " +++ shown a.account_number

abbrev pub reference : String → List (Control Action)
reference description =
    if is_empty description then [] else text "Reference" ∷ text description ∷ []

abbrev money : TransferPage → Option MoneyDto
money s = some (record { amount = some s.amount; currency = some s.currency })

unfoldable pub review_step : Platform → TransferPage → List (Control Action)
unfolding source_account destination_account_number format_money
review_step env s =
    text "From"
    ∷ text (type_and_number (source_account s))
    ∷ text "To"
    ∷ text (destination_account_number s)
    ∷ text "Debit"
    ∷ text ("- " +++ format_money env.intl (money s))
    ∷ text "Credit"
    ∷ text ("+ " +++ format_money env.intl (money s))
    ∷ (reference s.description
        ++ (button "Back" false (goes amount)
            ∷ button (if is_pending s.transfers then "Sending…" else "Confirm transfer")
                (is_pending s.transfers) confirms
            ∷ []))

unfoldable pub step_up_step : TransferPage → List (Control Action)
step_up_step s =
    let busy = is_pending s.verifications || is_pending s.transfers in
    input "Authentication code" s.step_up_code types_code
    ∷ button (if busy then "Verifying…" else "Verify and send") (is_empty s.step_up_code || busy)
        verifies
    ∷ []

abbrev executed_at : Platform → Option String → String
executed_at env none = ""
executed_at env (some time) = if is_empty time then "" else env.local_time time

unfoldable pub receipt_page : Platform → TransferResponse → List (Control Action)
unfolding format_money
receipt_page env result =
    text "Transfer complete"
    ∷ text "Transaction ID"
    ∷ text (shown result.transaction_id)
    ∷ text "New source balance"
    ∷ text (format_money env.intl result.source_new_balance)
    ∷ text "Executed at"
    ∷ text (executed_at env result.executed_at)
    ∷ button "Back to dashboard" false leaves
    ∷ []

abbrev pub wizard_steps : List Step
wizard_steps = source ∷ recipient ∷ amount ∷ review ∷ []

-- `WIZARD_STEPS.indexOf(step)`, none for -1.
unfoldable pub current_step_index : Step → Option ℕ
current_step_index source = some 0
current_step_index recipient = some 1
current_step_index amount = some 2
current_step_index review = some 3
current_step_index step_up = none
current_step_index receipt = none

abbrev pub marks_to : ℕ → ℕ → List Step → List (Control Action)
marks_to current i [] = []
marks_to current i (s ∷ steps) = progress (leb i current) ∷ marks_to current (suc i) steps

abbrev pub progress_marks : Option ℕ → List (Control Action)
progress_marks none = []
progress_marks (some current) = marks_to current 0 wizard_steps

abbrev pub step_controls : Platform → Step → TransferPage → List (Control Action)
step_controls env source s = source_step env s
step_controls env recipient s = recipient_step env s
step_controls env amount s = amount_step env s
step_controls env review s = review_step env s
step_controls env step_up s = step_up_step s
step_controls env receipt s = []

abbrev pub page_of :
    Platform → Step → Option TransferResponse → TransferPage → List (Control Action)
page_of env receipt (some result) s = receipt_page env result
page_of env step result s =
    text "Transfer money" ∷ (progress_marks (current_step_index step) ++ step_controls env step s)

unfoldable pub transfer_page : Platform → TransferPage → List (Control Action)
unfolding source_step recipient_step amount_step review_step step_up_step receipt_page
    current_step_index
transfer_page env s = page_of env s.step s.receipt s
