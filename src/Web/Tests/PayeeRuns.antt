-- ===== src/Web/Tests/PayeeRuns.antt =====
-- The theorem about the page of payees, for a user who adds one, with a form library that asks the
-- resolver.
use fernbank.Base.{◌≤◌, ◌≡◌, refl, List, [], ◌∷◌, Option, none, some, length, All}
use fernbank.Web.Api.{returns}
use fernbank.Web.Forms.{Issue, payee_schema}
use fernbank.Web.View.{presses, enters, offered, enter}
use fernbank.Web.Payees.{
  PayeeValues, Platform, ChecksForms, mounted, resolver, submit, change_open, confirm_add_payee,
  add_answered,
}
use fernbank.Web.Payees.Pages.{
  Event, user, answers_add, run, step, act, payees_page, add_content, saved_payees, delete_dialog,
  settle_add,
}
use fernbank.Web.Iban.{
  is_valid_fernbank_account_number, to_numeric_string, all_digits, big_int_from,
}
use fernbank.Web.Payees.Saving.{PassesIfAny, run-saves}
use fernbank.Web.Tests.TransferRuns.{units_of, number}

abbrev if_none : PayeeValues → List Issue → Option PayeeValues
if_none values [] = some values
if_none values (issue ∷ issues) = none

abbrev browser : Platform
browser = record {
  units = units_of;
  upper_case = λ s. s;
  first_two = λ s. s;
  hand_over = λ check values. if_none values (check values);
}

if_none-passes :
    (values handed : PayeeValues) (issues : List Issue)
    → if_none values issues ≡ some handed
    → (values ≡ handed) × (issues ≡ [])
if_none-passes values handed [] e = (cc, refl)
if_none-passes values handed (issue ∷ issues) e = cc

browser-ChecksForms : ChecksForms browser
browser-ChecksForms check values handed e =
    let (same, passes) = if_none-passes values handed (check values) e in rw same at passes

-- Opens the dialog, fills it in, continues, confirms, and the payee is saved.
abbrev adding : List Event
adding =
    user (presses 1)
    ∷ user (enters 4 "Ann")
    ∷ user (enters 5 number)
    ∷ user (presses 6)
    ∷ user (presses 9)
    ∷ answers_add (returns none)
    ∷ []

run-saves_example :
    All (λ payee. resolver browser payee ≡ []) (run browser mounted adding).added
    × PassesIfAny browser (run browser mounted adding).pending_payee
    × (length (run browser mounted adding).adds ≤ 1)
    × (length (run browser mounted adding).deletes ≤ 1)
run-saves_example = run-saves browser adding browser-ChecksForms

-- That run saves the payee and closes the dialog.
adding_adds :
    (run browser mounted adding).added
    ≡ record { name = "Ann"; target_account_number = number } ∷ []
unfolding run step offered enter act submit resolver payee_schema payees_page add_content
    saved_payees delete_dialog change_open confirm_add_payee settle_add add_answered
    is_valid_fernbank_account_number to_numeric_string all_digits big_int_from
adding_adds = refl
