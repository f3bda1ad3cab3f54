-- ===== src/Web/Transfer/Sending.antt =====
-- What the transfer page, frontend/src/app/(app)/transfer/page.tsx, sends, over every order of events.
use fernbank.Base.{
  suc, ◌+◌, ◌≤◌, ◌≡◌, refl, ap, sym, subst, ◌∙◌, ◌⊎◌, inl, inr, Bool, true, false, List, [], ◌∷◌,
  Option, none, some, length, All, arith, Bool-cases, Option-cases,
}
use fernbank.Web.Api.{ApiResult, returns, throws, rejects, ApiError}
use fernbank.Web.Forms.{Issue, TransferInput, transfer_schema}
use fernbank.Web.View.{offered}
use fernbank.Web.Transfer.{
  receipt, TransferResponse, Platform, TransferPage, mounted, details, data_of, build_transfer_body,
  is_step_up_required, transfer_failed, transfer_answered, verified, confirm_body, handle_confirm,
  handle_step_up, step_up_answered,
}
use fernbank.Web.Transfer.Pages.{
  Action, goes, chooses_source, switches, chooses_payee, types_recipient, types_amount,
  types_currency, types_description, types_code, confirms, verifies, leaves, act, is_pending,
  transfer_page,
}
use fernbank.Web.Transfer.Machine.{
  Event, user, answers_transfer, answers_step_up, fetches_accounts, fetches_payees, fails_accounts,
  fails_payees, settle_transfer, settle_step_up, step, run,
}
use fernbank.Web.Transfer.Controls.{is_step_up, Allowed, offered-Allowed}

module _ (env : Platform) where
  -- A body that the schema accepts.
  abbrev pub Passes : TransferInput → Type 0
  Passes body = transfer_schema env.refuses_uuid env.number_value body ≡ []

  abbrev PassesIfAny : Option TransferInput → Type 0
  PassesIfAny none = Unit
  PassesIfAny (some body) = Passes body

  -- One call at most runs, and the verification of a code only in the step that asks for it.
  abbrev pub IsSafe : TransferPage → Type 0
  IsSafe s =
      All Passes s.sent
      × All PassesIfAny s.verifications
      × (length s.transfers + length s.verifications ≤ 1)
      × ((length s.verifications ≡ 0) ⊎ (is_step_up s.step ≡ true))

  data_of-Passes :
      (body : TransferInput) (issues : List Issue)
      → issues ≡ transfer_schema env.refuses_uuid env.number_value body
      → PassesIfAny (data_of body issues)
  data_of-Passes body [] e = sym e
  data_of-Passes body (issue ∷ issues) e = tt

  build_transfer_body-Passes : (s : TransferPage) → PassesIfAny (build_transfer_body env s)
  unfolding build_transfer_body
  build_transfer_body-Passes s = data_of-Passes (details env s) _ refl

  pub idle-length : {A : Type 0} (calls : List A) → is_pending calls ≡ false → length calls ≡ 0
  idle-length [] e = refl
  idle-length (call ∷ calls) e = cc

  no_verification :
      (s : TransferPage) → IsSafe s → is_step_up s.step ≡ false → length s.verifications ≡ 0
  no_verification s h e = elim h.3 [ inl none_runs ↦ none_runs | inr there ↦ cc (sym e ∙ there) ]

  confirm_body-IsSafe :
      (body : Option TransferInput) (s : TransferPage)
      → PassesIfAny body
      → length s.transfers ≡ 0
      → length s.verifications ≡ 0
      → IsSafe s
      → IsSafe (confirm_body body s)
  confirm_body-IsSafe none s p t v h = h
  confirm_body-IsSafe (some body) s p t v h = ((p, h.0), h.1, omega (arith, t, v), inl v)

  act-IsSafe :
      (s : TransferPage) (action : Action)
      → Allowed s.step s.transfers s.verifications action
      → IsSafe s
      → IsSafe (act env s action)
  unfolding act handle_confirm handle_step_up
  act-IsSafe s (goes to) allowed h = (h.0, h.1, h.2, inl (no_verification s h allowed))
  act-IsSafe s confirms allowed h =
      confirm_body-IsSafe (build_transfer_body env s) s (build_transfer_body-Passes s)
        (idle-length s.transfers allowed.1) (no_verification s h allowed.0) h
  act-IsSafe s verifies allowed h =
      let t = idle-length s.transfers allowed.1 in
      let v = idle-length s.verifications allowed.2 in
      (h.0, (build_transfer_body-Passes s, h.1), omega (arith, t, v), inr allowed.0)
  act-IsSafe s (chooses_source id) allowed h = h
  act-IsSafe s (switches mode) allowed h = h
  act-IsSafe s (chooses_payee id) allowed h = h
  act-IsSafe s (types_recipient typed) allowed h = h
  act-IsSafe s (types_amount typed) allowed h = h
  act-IsSafe s (types_currency typed) allowed h = h
  act-IsSafe s (types_description typed) allowed h = h
  act-IsSafe s (types_code typed) allowed h = h
  act-IsSafe s leaves allowed h = h

  transfer_failed-IsSafe :
      (error : Option ApiError) (s : TransferPage) → IsSafe s → IsSafe (transfer_failed env error s)
  unfolding transfer_failed
  transfer_failed-IsSafe error s h = elim (Bool-cases (is_step_up_required env error)) [
    | inl required ↦ rw required (h.0, h.1, h.2, inr refl)
    | inr other ↦ rw other h
  ]

  transfer_answered-IsSafe :
      (result : ApiResult TransferResponse) (s : TransferPage)
      → length s.verifications ≡ 0
      → IsSafe s
      → IsSafe (transfer_answered env result s)
  unfolding transfer_answered
  transfer_answered-IsSafe (returns (some result)) s v h = (h.0, h.1, h.2, inl v)
  transfer_answered-IsSafe (returns none) s v h =
      transfer_failed-IsSafe none (record s { receipt = none; step = receipt })
        (h.0, h.1, h.2, inl v)
  transfer_answered-IsSafe (throws error) s v h = transfer_failed-IsSafe (some error) s h
  transfer_answered-IsSafe rejects s v h = transfer_failed-IsSafe none s h

  settle_transfer-IsSafe :
      (result : ApiResult TransferResponse) (calls : List TransferInput) (s : TransferPage)
      → length calls ≡ length s.transfers
      → IsSafe s
      → IsSafe (settle_transfer env result calls s)
  unfolding settle_transfer
  settle_transfer-IsSafe result [] s e h = h
  settle_transfer-IsSafe result (call ∷ calls) s e h =
      let v : length s.verifications ≡ 0 = omega (arith, e, h.2) in
      transfer_answered-IsSafe result (record s { transfers = calls }) v
        (h.0, h.1, omega (arith, e, h.2), inl v)

  verified-IsSafe :
      (body : Option TransferInput) (s : TransferPage)
      → PassesIfAny body
      → length s.transfers + length s.verifications ≡ 0
      → IsSafe s
      → IsSafe (verified body s)
  verified-IsSafe none s p e h = h
  verified-IsSafe (some body) s p e h = ((p, h.0), h.1, omega (arith, e), h.3)

  step_up_answered-IsSafe :
      (result : ApiResult Bool) (body : Option TransferInput) (s : TransferPage)
      → PassesIfAny body
      → length s.transfers + length s.verifications ≡ 0
      → IsSafe s
      → IsSafe (step_up_answered result body s)
  unfolding step_up_answered
  step_up_answered-IsSafe (returns result) body s p e h = verified-IsSafe body s p e h
  step_up_answered-IsSafe (throws error) body s p e h = h
  step_up_answered-IsSafe rejects body s p e h = h

  settle_step_up-IsSafe :
      (result : ApiResult Bool) (calls : List (Option TransferInput)) (s : TransferPage)
      → calls ≡ s.verifications
      → IsSafe s
      → IsSafe (settle_step_up result calls s)
  unfolding settle_step_up
  settle_step_up-IsSafe result [] s e h = h
  settle_step_up-IsSafe result (body ∷ calls) s e h =
      let bodies = subst (All PassesIfAny) (sym e) h.1 in
      let count : suc (length calls) ≡ length s.verifications = ap length e in
      step_up_answered-IsSafe result body (record s { verifications = calls }) bodies.0
        (omega (arith, count, h.2))
        (h.0, bodies.1, omega (arith, count, h.2), inl (omega (arith, count, h.2)))

  step-IsSafe : (s : TransferPage) (e : Event) → IsSafe s → IsSafe (step env s e)
  unfolding step
  step-IsSafe s (user did) h = elim (Option-cases (offered (transfer_page env s) did)) [
    | inl nothing ↦ rw nothing h
    | inr (action, e) ↦ rw e (act-IsSafe s action (offered-Allowed env s did action e) h)
  ]
  step-IsSafe s (answers_transfer result) h = settle_transfer-IsSafe result s.transfers s refl h
  step-IsSafe s (answers_step_up result) h = settle_step_up-IsSafe result s.verifications s refl h
  step-IsSafe s (fetches_accounts accounts) h = h
  step-IsSafe s (fetches_payees payees) h = h
  step-IsSafe s fails_accounts h = h
  step-IsSafe s fails_payees h = h

  pub run-IsSafe : (s : TransferPage) (es : List Event) → IsSafe s → IsSafe (run env s es)
  unfolding run
  run-IsSafe s [] h = h
  run-IsSafe s (e ∷ es) h = run-IsSafe (step env s e) es (step-IsSafe s e h)

-- From the moment the page is shown, over every order of what the user does with the controls on
-- display, of answers and of fetches: every transfer that was sent passes the schema of the form, and
-- of the calls for transfers and for verifications one at most runs; while a verification runs, the
-- page stays at the step that asks for the code.
pub run-sends :
    (env : Platform) (es : List Event)
    → All
        (λ body. transfer_schema env.refuses_uuid env.number_value body ≡ [])
        (run env mounted es).sent
      × (length (run env mounted es).transfers + length (run env mounted es).verifications ≤ 1)
      × ((length (run env mounted es).verifications ≡ 0)
          ⊎ (is_step_up (run env mounted es).step ≡ true))
run-sends env es =
    let h = run-IsSafe env mounted es (tt, tt, omega arith, inl refl) in (h.0, h.2, h.3)
