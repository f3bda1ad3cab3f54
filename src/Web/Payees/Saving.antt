-- ===== src/Web/Payees/Saving.antt =====
-- What frontend/src/app/(app)/payees/page.tsx sends, over every order of events.
use fernbank.Base.{
  ◌≤◌, ◌≡◌, refl, ap, inl, inr, Bool, true, false, List, [], ◌∷◌, String, Option, none, some,
  length, All, arith, Option-cases,
}
use fernbank.Web.Api.{ApiResult, returns, throws, rejects}
use fernbank.Web.Transfer.{PayeeResponse}
use fernbank.Web.Transfer.Pages.{is_pending}
use fernbank.Web.View.{offered}
use fernbank.Web.Payees.{
  PayeeValues, DeleteTarget, Platform, ChecksForms, PayeesPage, mounted, resolver,
  on_submit_details, submit, change_open, confirm_add_payee, add_answered, confirm_delete_payee,
  delete_answered,
}
use fernbank.Web.Payees.Pages.{
  Action, changes_open, types_name, types_number, submits, goes_back, confirms_add, asks_delete,
  cancels_delete, confirms_delete, act, payees_page, Event, user, dismisses_add, dismisses_delete,
  answers_add, answers_delete, fetches, fails, settle_add, settle_delete, step, run,
}
use fernbank.Web.Payees.Controls.{Allowed, offered-Allowed}

module _ (env : Platform) where
  abbrev Passes : PayeeValues → Type 0
  Passes payee = resolver env payee ≡ []

  abbrev pub PassesIfAny : Option PayeeValues → Type 0
  PassesIfAny none = Unit
  PassesIfAny (some payee) = Passes payee

  abbrev IsSafe : PayeesPage → Type 0
  IsSafe s =
      All Passes s.added
      × PassesIfAny s.pending_payee
      × (length s.adds ≤ 1)
      × (length s.deletes ≤ 1)

  idle-length : {A : Type 0} (calls : List A) → is_pending calls ≡ false → length calls ≡ 0
  idle-length [] e = refl
  idle-length (call ∷ calls) e = cc

  on_submit_details-IsSafe :
      (handed : Option PayeeValues) (s : PayeesPage)
      → PassesIfAny handed
      → IsSafe s
      → IsSafe (on_submit_details handed s)
  on_submit_details-IsSafe none s p h = h
  on_submit_details-IsSafe (some payee) s p h = (h.0, p, h.2, h.3)

  handed-Passes :
      ChecksForms env → (s : PayeesPage) → PassesIfAny (env.hand_over (resolver env) s.values)
  handed-Passes checks s = elim (Option-cases (env.hand_over (resolver env) s.values)) [
    | inl nothing ↦ rw nothing tt
    | inr (payee, e) ↦ rw e (checks (resolver env) s.values payee e)
  ]

  confirm_add_payee-IsSafe :
      (pending : Option PayeeValues) (s : PayeesPage)
      → PassesIfAny pending
      → length s.adds ≡ 0
      → IsSafe s
      → IsSafe (confirm_add_payee pending s)
  unfolding confirm_add_payee
  confirm_add_payee-IsSafe none s p n h = h
  confirm_add_payee-IsSafe (some payee) s p n h = ((p, h.0), h.1, omega (arith, n), h.3)

  confirm_delete_payee-IsSafe :
      (target : Option DeleteTarget) (s : PayeesPage)
      → length s.deletes ≡ 0
      → IsSafe s
      → IsSafe (confirm_delete_payee target s)
  unfolding confirm_delete_payee
  confirm_delete_payee-IsSafe none s n h = h
  confirm_delete_payee-IsSafe (some target) s n h = (h.0, h.1, h.2, omega (arith, n))

  change_open-IsSafe : (to : Bool) (s : PayeesPage) → IsSafe s → IsSafe (change_open to s)
  unfolding change_open
  change_open-IsSafe true s h = h
  change_open-IsSafe false s h = (h.0, tt, h.2, h.3)

  act-IsSafe :
      ChecksForms env
      → (s : PayeesPage) (action : Action) → Allowed s.adds s.deletes action
      → IsSafe s
      → IsSafe (act env s action)
  unfolding act submit
  act-IsSafe checks s (changes_open to) allowed h = change_open-IsSafe to s h
  act-IsSafe checks s (types_name typed) allowed h = h
  act-IsSafe checks s (types_number typed) allowed h = h
  act-IsSafe checks s submits allowed h =
      on_submit_details-IsSafe (env.hand_over (resolver env) s.values) s (handed-Passes checks s) h
  act-IsSafe checks s goes_back allowed h = (h.0, tt, h.2, h.3)
  act-IsSafe checks s confirms_add allowed h =
      confirm_add_payee-IsSafe s.pending_payee s h.1 (idle-length s.adds allowed) h
  act-IsSafe checks s (asks_delete target) allowed h = h
  act-IsSafe checks s cancels_delete allowed h = h
  act-IsSafe checks s confirms_delete allowed h =
      confirm_delete_payee-IsSafe s.delete_target s (idle-length s.deletes allowed) h

  settle_add-IsSafe :
      (result : ApiResult PayeeResponse) (calls : List PayeeValues) (s : PayeesPage)
      → calls ≡ s.adds
      → IsSafe s
      → IsSafe (settle_add result calls s)
  unfolding settle_add add_answered
  settle_add-IsSafe result [] s e h = h
  settle_add-IsSafe (returns added) (call ∷ calls) s e h =
      (h.0, tt, omega (arith, ap length e, h.2), h.3)
  settle_add-IsSafe (throws error) (call ∷ calls) s e h =
      (h.0, h.1, omega (arith, ap length e, h.2), h.3)
  settle_add-IsSafe rejects (call ∷ calls) s e h = (h.0, h.1, omega (arith, ap length e, h.2), h.3)

  settle_delete-IsSafe :
      (result : ApiResult Bool) (calls : List (Option String)) (s : PayeesPage)
      → calls ≡ s.deletes
      → IsSafe s
      → IsSafe (settle_delete result calls s)
  unfolding settle_delete delete_answered
  settle_delete-IsSafe result [] s e h = h
  settle_delete-IsSafe result (call ∷ calls) s e h =
      (h.0, h.1, h.2, omega (arith, ap length e, h.3))

  step-IsSafe : ChecksForms env → (s : PayeesPage) (e : Event) → IsSafe s → IsSafe (step env s e)
  unfolding step
  step-IsSafe checks s (user did) h = elim (Option-cases (offered (payees_page env s) did)) [
    | inl nothing ↦ rw nothing h
    | inr (action, e) ↦ rw e (act-IsSafe checks s action (offered-Allowed env s did action e) h)
  ]
  step-IsSafe checks s dismisses_add h = change_open-IsSafe false s h
  step-IsSafe checks s dismisses_delete h = h
  step-IsSafe checks s (answers_add result) h = settle_add-IsSafe result s.adds s refl h
  step-IsSafe checks s (answers_delete result) h = settle_delete-IsSafe result s.deletes s refl h
  step-IsSafe checks s (fetches payees) h = h
  step-IsSafe checks s fails h = h

  run-IsSafe :
      ChecksForms env → (s : PayeesPage) (es : List Event) → IsSafe s → IsSafe (run env s es)
  unfolding run
  run-IsSafe checks s [] h = h
  run-IsSafe checks s (e ∷ es) h = run-IsSafe checks (step env s e) es (step-IsSafe checks s e h)

-- If the form library hands over only values that its resolver accepts: over every order of what the
-- user does, of answers and of fetches, every payee that was sent to be saved, and every one that waits
-- for its confirmation, passes the schema of payees, and of the calls that save and of those that
-- delete one at most runs at a time.
pub run-saves :
    (env : Platform) (es : List Event)
    → ChecksForms env
    → All (λ payee. resolver env payee ≡ []) (run env mounted es).added
      × PassesIfAny env (run env mounted es).pending_payee
      × (length (run env mounted es).adds ≤ 1)
      × (length (run env mounted es).deletes ≤ 1)
run-saves env es checks = run-IsSafe env checks mounted es (tt, tt, omega arith, omega arith)
