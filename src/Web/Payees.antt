-- ===== src/Web/Payees.antt =====
-- frontend/src/app/(app)/payees/page.tsx: the state of the page and its handlers, cut at their awaits.
pub mod Pages
pub mod Controls
pub mod Saving
use fernbank.Base.{Bool, true, false, List, [], ◌∷◌, String, Option, none, some, ◌≡◌}
use fernbank.Web.Api.{ApiResult, returns, throws, rejects}
use fernbank.Web.Forms.{Units, Issue, PayeeInput, payee_schema}
use fernbank.Web.Transfer.{PayeeResponse}
use fernbank.Web.View.{error_message}

-- The values of the form, and a payee that waits for its confirmation.
pub record PayeeValues : Type 0 where
  pub name : String
  pub target_account_number : String

pub record DeleteTarget : Type 0 where
  pub id : Option String
  pub name : String

-- `hand_over` is the form library's `handleSubmit`: the values that it hands to the page's handler, if
-- any, where a resolver checks them. `first_two` is `slice(0, 2)`.
pub record Platform : Type 0 where
  pub units : String → Units
  pub upper_case : String → String
  pub first_two : String → String
  pub hand_over : (PayeeValues → List Issue) → PayeeValues → Option PayeeValues

-- The library hands over only what the resolver finds nothing wrong with.
abbrev pub ChecksForms : Platform → Type 0
ChecksForms env =
    (resolver : PayeeValues → List Issue) (values handed : PayeeValues)
    → env.hand_over resolver values ≡ some handed
    → resolver handed ≡ []

-- `adds` and `deletes` are the calls that run; `added` and `deleted` all that were made, the latest
-- first.
pub record PayeesPage : Type 0 where
  pub payees : Option (List PayeeResponse)
  pub is_pending : Bool
  pub add_open : Bool
  pub values : PayeeValues
  pub pending_payee : Option PayeeValues
  pub delete_target : Option DeleteTarget
  pub adds : List PayeeValues
  pub deletes : List (Option String)
  pub added : List PayeeValues
  pub deleted : List (Option String)
  pub toasts : List String

abbrev pub default_values : PayeeValues
default_values = record { name = ""; target_account_number = "" }

abbrev pub mounted : PayeesPage
mounted = record {
  payees = none;
  is_pending = true;
  add_open = false;
  values = default_values;
  pending_payee = none;
  delete_target = none;
  adds = [];
  deletes = [];
  added = [];
  deleted = [];
  toasts = [];
}

-- `zodResolver(payeeSchema)`.
unfoldable pub resolver : Platform → PayeeValues → List Issue
unfolding payee_schema
resolver env values = payee_schema (record {
  name = env.units values.name;
  target_account_number = env.units values.target_account_number;
})

abbrev pub on_submit_details : Option PayeeValues → PayeesPage → PayeesPage
on_submit_details none s = s
on_submit_details (some values) s = record s { pending_payee = some values }

unfoldable pub submit : Platform → PayeesPage → PayeesPage
unfolding resolver
submit env s = on_submit_details (env.hand_over (resolver env) s.values) s

-- `onOpenChange` of the dialog for a new payee.
unfoldable pub change_open : Bool → PayeesPage → PayeesPage
change_open true s = record s { add_open = true }
change_open false s = record s { add_open = false; pending_payee = none; values = default_values }

-- `confirmAddPayee` up to its await, and behind it.
unfoldable pub confirm_add_payee : Option PayeeValues → PayeesPage → PayeesPage
confirm_add_payee none s = s
confirm_add_payee (some payee) s = record s { adds = payee ∷ s.adds; added = payee ∷ s.added }

abbrev pub toast : String → PayeesPage → PayeesPage
toast message s = record s { toasts = message ∷ s.toasts }

unfoldable pub add_answered : {A : Type 0} → ApiResult A → PayeesPage → PayeesPage
unfolding error_message
add_answered (returns result) s = record s {
  toasts = "Payee added" ∷ s.toasts;
  add_open = false;
  pending_payee = none;
  values = default_values;
}
add_answered (throws error) s = toast (error_message "Failed to add payee" (some error)) s
add_answered rejects s = toast (error_message "Failed to add payee" none) s

-- `confirmDeletePayee` up to its await, and behind it.
unfoldable pub confirm_delete_payee : Option DeleteTarget → PayeesPage → PayeesPage
confirm_delete_payee none s = s
confirm_delete_payee (some target) s = record s {
  deletes = target.id ∷ s.deletes;
  deleted = target.id ∷ s.deleted;
}

unfoldable pub delete_message : {A : Type 0} → ApiResult A → String
unfolding error_message
delete_message (returns result) = "Payee deleted"
delete_message (throws error) = error_message "Failed to delete payee" (some error)
delete_message rejects = error_message "Failed to delete payee" none

unfoldable pub delete_answered : {A : Type 0} → ApiResult A → PayeesPage → PayeesPage
unfolding delete_message
delete_answered result s = record s {
  toasts = delete_message result ∷ s.toasts;
  delete_target = none;
}
