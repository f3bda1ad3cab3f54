-- ===== src/Web/Transfer/Controls.antt =====
-- What the controls of frontend/src/app/(app)/transfer/page.tsx may do in each step.
use fernbank.Base.{
  ℕ, suc, ◌≡◌, refl, ◌⊎◌, inl, inr, Bool, true, false, ◌||◌, List, [], ◌∷◌, ◌++◌, String, Option,
  none, some, All, arith, Bool-cases, if◌then◌else◌, or_else,
}
use fernbank.Base.Text.{is_empty}
use fernbank.Web.Forms.{TransferInput}
use fernbank.Web.View.{Control, text, button, offered, UserInput}
use fernbank.Web.View.Offers.{Gives, offered-Gives, append-Gives}
use fernbank.Web.Transfer.{
  Step, source, recipient, amount, review, step_up, receipt, RecipientMode, payee, new,
  TransferResponse, PayeeResponse, Platform, TransferPage,
}
use fernbank.Web.Transfer.Pages.{
  Action, goes, confirms, verifies, is_pending, source_step, recipient_step, amount_step,
  review_step, step_up_step, receipt_page, page_of, step_controls, marks_to, source_select,
  payee_select, listed_payees, recipient_tab, reference, progress_marks, wizard_steps,
  current_step_index, transfer_page,
}
use fernbank.Web.Transfer.Machine.{step}

abbrev pub is_step_up : Step → Bool
is_step_up step_up = true
is_step_up _ = false

-- What a control may do: a call starts only while none runs, and the step of the second factor is left
-- by an answer only.
abbrev pub Allowed : Step → List TransferInput → List (Option TransferInput) → Action → Type 0
Allowed step ts vs (goes to) = is_step_up step ≡ false
Allowed step ts vs confirms = (is_step_up step ≡ false) × (is_pending ts ≡ false)
Allowed step ts vs verifies =
    (is_step_up step ≡ true) × (is_pending ts ≡ false) × (is_pending vs ≡ false)
Allowed step ts vs _ = Unit

module _ (env : Platform) (s : TransferPage) where
  abbrev Fine : Step → List (Control Action) → Type 0
  Fine step controls = All (Gives (Allowed step s.transfers s.verifications)) controls

  marks-Fine :
      (step : Step) (current i : ℕ) (steps : List Step) → Fine step (marks_to current i steps)
  marks-Fine step current i [] = tt
  marks-Fine step current i (x ∷ steps) = (tt, marks-Fine step current (suc i) steps)

  progress-Fine : (step : Step) (current : Option ℕ) → Fine step (progress_marks current)
  progress-Fine step none = tt
  progress-Fine step (some current) = marks-Fine step current 0 wizard_steps

  source_select-Fine :
      (pending : Bool)
      → Gives
          (Allowed source s.transfers s.verifications)
          (source_select env s.source_account_id pending s.accounts)
  source_select-Fine true = tt
  source_select-Fine false = λ id. tt

  source-Fine : Fine source (source_step env s)
  unfolding source_step
  source-Fine = (tt, (source_select-Fine s.is_accounts_pending, (inr refl, tt)))

  listed_payees-Fine :
      (payees : List PayeeResponse)
      → Gives
          (Allowed recipient s.transfers s.verifications)
          (listed_payees s.selected_payee_id payees)
  listed_payees-Fine [] = tt
  listed_payees-Fine (p ∷ payees) = λ id. tt

  payee_select-Fine :
      (pending : Bool)
      → Gives
          (Allowed recipient s.transfers s.verifications)
          (payee_select s.selected_payee_id pending s.payees)
  payee_select-Fine true = tt
  payee_select-Fine false = listed_payees-Fine (or_else s.payees [])

  recipient_tab-Fine :
      (mode : RecipientMode) → Fine recipient (recipient_tab (record s { recipient_mode = mode }))
  recipient_tab-Fine payee = (payee_select-Fine s.is_payees_pending, tt)
  recipient_tab-Fine new = (λ typed. tt, tt)

  recipient-Fine : Fine recipient (recipient_step env s)
  unfolding recipient_step
  recipient-Fine = (
    inr tt,
    (
      inr tt,
      append-Gives _ (recipient_tab s) _ (recipient_tab-Fine s.recipient_mode)
          (inr refl, (inr refl, tt)),
    ),
  )

  amount-Fine : Fine amount (amount_step env s)
  unfolding amount_step
  amount-Fine = (λ typed. tt, (λ typed. tt, (λ typed. tt, (inr refl, (inr refl, tt)))))

  reference-Fine : (description : String) → Fine review (reference description)
  reference-Fine description = elim (Bool-cases (is_empty description)) [
    | inl none_given ↦ rw none_given tt
    | inr given ↦ rw given (tt, (tt, tt))
  ]

  review-Fine : Fine review (review_step env s)
  unfolding review_step
  review-Fine =
      let buttons : Fine review (
          button "Back" false (goes amount)
          ∷ button (if is_pending s.transfers then "Sending…" else "Confirm transfer")
              (is_pending s.transfers) confirms
          ∷ []) =
        (
          inr refl,
          (
            elim (Bool-cases (is_pending s.transfers)) [
              | inl busy ↦ inl busy
              | inr idle ↦ inr (refl, idle)
            ],
            tt,
          ),
        ) in
      (
        tt,
        (
          tt,
          (
            tt,
            (
              tt,
              (
                tt,
                (
                  tt,
                  (
                    tt,
                    (
                      tt,
                      append-Gives _ (reference s.description) _ (reference-Fine s.description)
                          buttons,
                    ),
                  ),
                ),
              ),
            ),
          ),
        ),
      )

  verify_allowed :
      (no_code busy_v busy_t : Bool)
      → ((no_code || (busy_v || busy_t)) ≡ true) ⊎ ((busy_t ≡ false) × (busy_v ≡ false))
  verify_allowed no_code busy_v busy_t = ground arith

  step_up-Fine : Fine step_up (step_up_step s)
  unfolding step_up_step
  step_up-Fine = (
    λ typed. tt,
    (
      elim (verify_allowed (is_empty s.step_up_code) (is_pending s.verifications)
          (is_pending s.transfers)) [ inl disabled ↦ inl disabled | inr (t, v) ↦ inr (refl, t, v) ],
      tt,
    ),
  )

  step_controls-Fine : (step : Step) → Fine step (step_controls env step s)
  step_controls-Fine source = source-Fine
  step_controls-Fine recipient = recipient-Fine
  step_controls-Fine amount = amount-Fine
  step_controls-Fine review = review-Fine
  step_controls-Fine step_up = step_up-Fine
  step_controls-Fine receipt = tt

  under_heading-Fine :
      (step : Step)
      → Fine step (
          text "Transfer money"
          ∷ (progress_marks (current_step_index step) ++ step_controls env step s))
  under_heading-Fine step = (
    tt,
    append-Gives _ (progress_marks (current_step_index step)) _
        (progress-Fine step (current_step_index step)) (step_controls-Fine step),
  )

  page_of-Fine :
      (step : Step) (result : Option TransferResponse) → Fine step (page_of env step result s)
  unfolding receipt_page
  page_of-Fine receipt (some result) = (tt, (tt, (tt, (tt, (tt, (tt, (tt, (inr tt, tt))))))))
  page_of-Fine receipt none = under_heading-Fine receipt
  page_of-Fine source result = under_heading-Fine source
  page_of-Fine recipient result = under_heading-Fine recipient
  page_of-Fine amount result = under_heading-Fine amount
  page_of-Fine review result = under_heading-Fine review
  page_of-Fine step_up result = under_heading-Fine step_up

  pub offered-Allowed :
      (did : UserInput) (action : Action)
      → offered (transfer_page env s) did ≡ some action
      → Allowed s.step s.transfers s.verifications action
  unfolding transfer_page
  offered-Allowed did action e =
      offered-Gives _ (page_of env s.step s.receipt s) did action (page_of-Fine s.step s.receipt) e
