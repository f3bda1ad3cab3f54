-- ===== src/Web/Payees/Pages.antt =====
-- What frontend/src/app/(app)/payees/page.tsx shows, what its controls do, and its runs: what the user
-- does, the answers to its calls, and the data of its query, in any order. The controls behind an open
-- dialog are offered too.
use fernbank.Base.{
  Bool, true, false, List, [], ◌∷◌, ◌++◌, String, Option, none, some, or_else, if◌then◌else◌,
}
use fernbank.Base.Text.{◌+++◌}
use fernbank.Web.Api.{ApiResult}
use fernbank.Web.Transfer.{PayeeResponse}
use fernbank.Web.Transfer.Pages.{is_pending}
use fernbank.Web.View.{Control, text, placeholder, button, input, UserInput, offered}
use fernbank.Web.Payees.{
  PayeeValues, DeleteTarget, Platform, PayeesPage, submit, change_open, confirm_add_payee,
  add_answered, confirm_delete_payee, delete_answered,
}

pub data Action : Type 0 where
  changes_open : Bool → Action
  types_name : String → Action
  types_number : String → Action
  submits : Action
  goes_back : Action
  confirms_add : Action
  asks_delete : DeleteTarget → Action
  cancels_delete : Action
  confirms_delete : Action

unfoldable pub act : Platform → PayeesPage → Action → PayeesPage
unfolding submit change_open confirm_add_payee confirm_delete_payee
act env s (changes_open to) = change_open to s
act env s (types_name typed) = record s { values = record s.values { name = typed } }
act env s (types_number typed) = record s {
  values = record s.values { target_account_number = env.upper_case typed };
}
act env s submits = submit env s
act env s goes_back = record s { pending_payee = none }
act env s confirms_add = confirm_add_payee s.pending_payee s
act env s (asks_delete target) = record s { delete_target = some target }
act env s cancels_delete = record s { delete_target = none }
act env s confirms_delete = confirm_delete_payee s.delete_target s

-- The dialog for a new payee: its form, or the payee to confirm.
unfoldable pub add_content :
    Option PayeeValues → PayeeValues → List PayeeValues → List (Control Action)
add_content none values adds =
    text "Add a payee"
    ∷ text
        "Save a recipient's account number so you can transfer to them later without retyping it."
    ∷ input "Name" values.name types_name
    ∷ input "Account number" values.target_account_number types_number
    ∷ button "Continue" false submits
    ∷ []
add_content (some payee) values adds =
    text "Confirm payee"
    ∷ text "Double-check this before saving."
    ∷ text "Name"
    ∷ text payee.name
    ∷ text "Account number"
    ∷ text payee.target_account_number
    ∷ button "Back" false goes_back
    ∷ button (if is_pending adds then "Saving…" else "Save payee") (is_pending adds) confirms_add
    ∷ []

abbrev pub add_dialog : PayeesPage → List (Control Action)
add_dialog s = if s.add_open then add_content s.pending_payee s.values s.adds else []

unfoldable pub payee_row : Platform → PayeeResponse → List (Control Action)
payee_row env payee =
    text (env.upper_case (env.first_two (or_else payee.name "?")))
    ∷ text (or_else payee.name "")
    ∷ text (or_else payee.target_account_number "")
    ∷ button "Delete" false (asks_delete (record { id = payee.id; name = or_else payee.name "" }))
    ∷ []

unfoldable pub payee_rows : Platform → List PayeeResponse → List (Control Action)
unfolding payee_row
payee_rows env [] = []
payee_rows env (p ∷ payees) = payee_row env p ++ payee_rows env payees

unfoldable pub saved_payees : Platform → Bool → Option (List PayeeResponse) → List (Control Action)
unfolding payee_rows
saved_payees env true payees = placeholder ∷ placeholder ∷ placeholder ∷ []
saved_payees env false payees = elim (or_else payees []) [
  | [] ↦ text "No saved payees yet — add one to make transfers faster." ∷ []
  | p ∷ ps ↦ payee_rows env (p ∷ ps)
]

unfoldable pub delete_dialog : Option DeleteTarget → List (Option String) → List (Control Action)
delete_dialog none deletes = []
delete_dialog (some target) deletes =
    text "Delete payee?"
    ∷ text (
        "This removes " +++ target.name
        +++ " from your saved payees. You can add them again later.")
    ∷ button "Cancel" false cancels_delete
    ∷ button (if is_pending deletes then "Deleting…" else "Delete") (is_pending deletes)
        confirms_delete
    ∷ []

unfoldable pub payees_page : Platform → PayeesPage → List (Control Action)
unfolding add_content saved_payees delete_dialog
payees_page env s =
    text "Payees"
    ∷ button "Add payee" false (changes_open true)
    ∷ (add_dialog s
        ++ (text "Saved payees"
            ∷ (saved_payees env s.is_pending s.payees ++ delete_dialog s.delete_target s.deletes)))

-- `dismisses_add` and `dismisses_delete` stand for the ways of the dialog library to close a dialog.
pub data Event : Type 0 where
  user : UserInput → Event
  dismisses_add : Event
  dismisses_delete : Event
  answers_add : ApiResult PayeeResponse → Event
  answers_delete : ApiResult Bool → Event
  fetches : List PayeeResponse → Event
  fails : Event

abbrev pub perform : Platform → Option Action → PayeesPage → PayeesPage
perform env none s = s
perform env (some action) s = act env s action

-- An answer is that to the call that was made last, if one runs.
unfoldable pub settle_add : ApiResult PayeeResponse → List PayeeValues → PayeesPage → PayeesPage
unfolding add_answered
settle_add result [] s = s
settle_add result (call ∷ calls) s = add_answered result (record s { adds = calls })

unfoldable pub settle_delete : ApiResult Bool → List (Option String) → PayeesPage → PayeesPage
unfolding delete_answered
settle_delete result [] s = s
settle_delete result (call ∷ calls) s = delete_answered result (record s { deletes = calls })

unfoldable pub step : Platform → PayeesPage → Event → PayeesPage
unfolding change_open settle_add settle_delete
step env s (user did) = perform env (offered (payees_page env s) did) s
step env s dismisses_add = change_open false s
step env s dismisses_delete = record s { delete_target = none }
step env s (answers_add result) = settle_add result s.adds s
step env s (answers_delete result) = settle_delete result s.deletes s
step env s (fetches payees) = record s { payees = some payees; is_pending = false }
step env s fails = record s { is_pending = false }

unfoldable pub run : Platform → PayeesPage → List Event → PayeesPage
unfolding step
run env s [] = s
run env s (e ∷ es) = run env (step env s e) es
