-- ===== src/Web/Payees/Controls.antt =====
-- What the controls of frontend/src/app/(app)/payees/page.tsx may do.
use fernbank.Base.{
  ◌≡◌, ◌⊎◌, inr, Bool, true, false, List, [], ◌∷◌, String, Option, none, some, All, Bool-cases,
  if◌then◌else◌,
}
use fernbank.Web.Transfer.{PayeeResponse}
use fernbank.Web.Transfer.Pages.{is_pending}
use fernbank.Web.View.{Control, offered, UserInput}
use fernbank.Web.View.Offers.{Gives, offered-Gives, append-Gives}
use fernbank.Web.Payees.{PayeeValues, DeleteTarget, Platform, PayeesPage}
use fernbank.Web.Payees.Pages.{
  Action, confirms_add, confirms_delete, add_content, add_dialog, payee_row, payee_rows,
  saved_payees, delete_dialog, payees_page,
}

-- A call starts only while none of its kind runs.
abbrev pub Allowed : List PayeeValues → List (Option String) → Action → Type 0
Allowed adds deletes confirms_add = is_pending adds ≡ false
Allowed adds deletes confirms_delete = is_pending deletes ≡ false
Allowed adds deletes _ = Unit

unless_busy : {A : Type 0} (calls : List A) → (is_pending calls ≡ true) ⊎ (is_pending calls ≡ false)
unless_busy calls = Bool-cases (is_pending calls)

module _ (env : Platform) (adds : List PayeeValues) (deletes : List (Option String)) where
  abbrev Fine : List (Control Action) → Type 0
  Fine controls = All (Gives (Allowed adds deletes)) controls

  add_content-Fine :
      (pending : Option PayeeValues) (values : PayeeValues) → Fine (add_content pending values adds)
  unfolding add_content
  add_content-Fine none values = (tt, (tt, (λ typed. tt, (λ typed. tt, (inr tt, tt)))))
  add_content-Fine (some payee) values =
      (tt, (tt, (tt, (tt, (tt, (tt, (inr tt, (unless_busy adds, tt))))))))

  payee_rows-Fine : (payees : List PayeeResponse) → Fine (payee_rows env payees)
  unfolding payee_rows payee_row
  payee_rows-Fine [] = tt
  payee_rows-Fine (p ∷ payees) = (tt, (tt, (tt, (inr tt, payee_rows-Fine payees))))

  listed-Fine : (payees : List PayeeResponse) → Fine (saved_payees env false (some payees))
  unfolding saved_payees
  listed-Fine [] = (tt, tt)
  listed-Fine (p ∷ payees) = payee_rows-Fine (p ∷ payees)

  saved_payees-Fine :
      (pending : Bool) (payees : Option (List PayeeResponse))
      → Fine (saved_payees env pending payees)
  unfolding saved_payees
  saved_payees-Fine true payees = (tt, (tt, (tt, tt)))
  saved_payees-Fine false none = (tt, tt)
  saved_payees-Fine false (some payees) = listed-Fine payees

  delete_dialog-Fine : (target : Option DeleteTarget) → Fine (delete_dialog target deletes)
  unfolding delete_dialog
  delete_dialog-Fine none = tt
  delete_dialog-Fine (some target) = (tt, (tt, (inr tt, (unless_busy deletes, tt))))

  add_dialog-Fine :
      (is_open : Bool) (pending : Option PayeeValues) (values : PayeeValues)
      → Fine (if is_open then add_content pending values adds else [])
  add_dialog-Fine true pending values = add_content-Fine pending values
  add_dialog-Fine false pending values = tt

pub offered-Allowed :
    (env : Platform) (s : PayeesPage) (did : UserInput) (action : Action)
    → offered (payees_page env s) did ≡ some action
    → Allowed s.adds s.deletes action
unfolding payees_page
offered-Allowed env s did action e =
    offered-Gives (Allowed s.adds s.deletes) (payees_page env s) did action
      (
        tt,
        (
          inr tt,
          append-Gives _ (add_dialog s) _
              (add_dialog-Fine env s.adds s.deletes s.add_open s.pending_payee s.values)
              (
                tt,
                append-Gives _ (saved_payees env s.is_pending s.payees) _
                    (saved_payees-Fine env s.adds s.deletes s.is_pending s.payees)
                    (delete_dialog-Fine env s.adds s.deletes s.delete_target),
              ),
        ),
      )
      e
