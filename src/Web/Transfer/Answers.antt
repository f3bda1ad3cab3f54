-- ===== src/Web/Transfer/Answers.antt =====
-- What a confirmation and an answer lead to on frontend/src/app/(app)/transfer/page.tsx.
use fernbank.Base.{
  ◌≡◌, ◌≢◌, refl, ◌⊎◌, inl, inr, true, false, List, [], ◌∷◌, String, none, some, length, Bool-cases,
  Option-cases, get_elem?,
}
use fernbank.Web.Api.{ApiResult, returns, throws, rejects, ApiError}
use fernbank.Web.Forms.{Issue, TransferInput, transfer_schema}
use fernbank.Web.View.{text, offered, UserInput, error_message}
use fernbank.Web.Transfer.{
  review, step_up, receipt, TransferResponse, Platform, TransferPage, details, data_of,
  build_transfer_body, is_step_up_required, transfer_failed, transfer_answered, handle_confirm,
  destination_account_number,
}
use fernbank.Web.Transfer.Pages.{confirms, act, current_step_index, review_step, transfer_page}
use fernbank.Web.Transfer.Machine.{user, answers_transfer, settle_transfer, step}
use fernbank.Web.Transfer.Controls.{offered-Allowed}
use fernbank.Web.Transfer.Sending.{idle-length}

-- What the button of the review has done: the form's details passed the schema and are on their way, or
-- they did not, nothing new is on its way, and a message says so.
abbrev pub IsConfirmed : Platform → TransferPage → TransferPage → Type 0
IsConfirmed env s t =
    ((transfer_schema env.refuses_uuid env.number_value (details env s) ≡ [])
      × (t.sent ≡ details env s ∷ s.sent)
      × (t.transfers ≡ details env s ∷ s.transfers)
      × (t.toasts ≡ s.toasts))
    ⊎ ((transfer_schema env.refuses_uuid env.number_value (details env s) ≢ [])
        × (t.sent ≡ s.sent)
        × (t.transfers ≡ s.transfers)
        × (t.toasts ≡ "Check the transfer details and try again" ∷ s.toasts))

data_of-cases :
    (body : TransferInput) (issues : List Issue)
    → ((issues ≡ []) × (data_of body issues ≡ some body))
      ⊎ ((issues ≢ []) × (data_of body issues ≡ none))
data_of-cases body [] = inl (refl, refl)
data_of-cases body (issue ∷ issues) = inr ((λ e. cc), refl)

handle_confirm-IsConfirmed :
    (env : Platform) (s : TransferPage) → IsConfirmed env s (handle_confirm env s)
unfolding handle_confirm build_transfer_body
handle_confirm-IsConfirmed env s =
    elim (data_of-cases (details env s)
      (transfer_schema env.refuses_uuid env.number_value (details env s))) [
        | inl (passes, e) ↦ rw e (inl (passes, refl, refl, refl))
        | inr (refused, e) ↦ rw e (inr (refused, refl, refl, refl))
      ]

-- In the review: the account number on display is the one that the details of the form name as the
-- destination. When the user confirms, by the one control that does so, exactly the details that pass
-- the schema are sent, and for others a message is shown and nothing is sent; and no transfer runs at
-- that time.
pub review-confirm :
    (env : Platform) (s : TransferPage) (did : UserInput)
    → s.step ≡ review
    → offered (transfer_page env s) did ≡ some confirms
    → (get_elem? (transfer_page env s) 8 ≡ some (text (destination_account_number s)))
      × ((details env s).destination_account_number
          ≡ some (env.units (destination_account_number s)))
      × IsConfirmed env s (step env s (user did))
      × (length s.transfers ≡ 0)
unfolding transfer_page review_step details step act current_step_index
review-confirm env s did at pressed = (
  rw at refl,
  refl,
  rw pressed (handle_confirm-IsConfirmed env s),
  idle-length env s.transfers (offered-Allowed env s did confirms pressed).1,
)

-- The server's error asks for a code: it has a type that ends as that of such an error.
abbrev AsksForCode : Platform → ApiError → Type 0
AsksForCode env error =
    (type : String) × (error.type ≡ some type) × (env.ends_with type "step-up-required" ≡ true)

-- It does not.
abbrev AsksForNone : Platform → ApiError → Type 0
AsksForNone env error =
    (error.type ≡ none)
    ⊎ ((type : String) × (error.type ≡ some type) × (env.ends_with type "step-up-required" ≡ false))

-- The first text that there is of the error's detail, its title and its message.
abbrev IsMessage : ApiError → String → Type 0
IsMessage error message =
    (error.detail ≡ some message)
    ⊎ ((error.detail ≡ none) × (error.title ≡ some message))
    ⊎ ((error.detail ≡ none) × (error.title ≡ none) × (message ≡ error.message))

-- What an answer leads to. `t` is the page behind it.
abbrev pub IsShown : Platform → ApiResult TransferResponse → TransferPage → TransferPage → Type 0
IsShown env (returns (some result)) s t =
    (t.step ≡ receipt) × (t.receipt ≡ some result) × (t.toasts ≡ s.toasts)
IsShown env (returns none) s t =
    (t.step ≡ receipt) × (t.receipt ≡ none) × (t.toasts ≡ "Transfer failed" ∷ s.toasts)
IsShown env (throws error) s t =
    (t.receipt ≡ s.receipt)
    × ((AsksForCode env error × (t.step ≡ step_up) × (t.toasts ≡ s.toasts))
        ⊎ (AsksForNone env error
            × (t.step ≡ s.step)
            × (message : String) × IsMessage error message
            × (t.toasts ≡ message ∷ s.toasts)))
IsShown env rejects s t =
    (t.receipt ≡ s.receipt) × (t.step ≡ s.step) × (t.toasts ≡ "Transfer failed" ∷ s.toasts)

is_step_up_required-cases :
    (env : Platform) (error : ApiError)
    → (AsksForCode env error × (is_step_up_required env (some error) ≡ true))
      ⊎ (AsksForNone env error × (is_step_up_required env (some error) ≡ false))
unfolding is_step_up_required
is_step_up_required-cases env error = elim (Option-cases error.type) [
  | inl untyped ↦ inr (inl untyped, rw untyped refl)
  | inr (type, typed) ↦ elim (Bool-cases (env.ends_with type "step-up-required")) [
    | inl asks ↦ inl ((type, typed, asks), rw typed asks)
    | inr other ↦ inr (inr (type, typed, other), rw typed other)
  ]
]

error_message-IsMessage :
    (fallback : String) (error : ApiError) → IsMessage error (error_message fallback (some error))
unfolding error_message
error_message-IsMessage fallback error = elim (Option-cases error.detail) [
  | inr (detail, e) ↦ rw e (inl refl)
  | inl bare ↦ elim (Option-cases error.title) [
    | inr (title, e) ↦ rw (bare, e) (inr (inl (refl, refl)))
    | inl untitled ↦ rw (bare, untitled) (inr (inr (refl, refl, refl)))
  ]
]

thrown-IsShown :
    (env : Platform) (error : ApiError) (s : TransferPage)
    → IsShown env (throws error) s (transfer_failed env (some error) s)
      × ((transfer_failed env (some error) s).transfers ≡ s.transfers)
unfolding transfer_failed
thrown-IsShown env error s = elim (is_step_up_required-cases env error) [
  | inl (asks, e) ↦ rw e ((refl, inl (asks, refl, refl)), refl)
  | inr (other, e) ↦ rw e (
    (
      refl,
      inr (
        other,
        refl,
        error_message "Transfer failed" (some error),
        error_message-IsMessage "Transfer failed" error,
        refl,
      ),
    ),
    refl,
  )
]

transfer_answered-IsShown :
    (env : Platform) (result : ApiResult TransferResponse) (s : TransferPage)
    → IsShown env result s (transfer_answered env result s)
      × ((transfer_answered env result s).transfers ≡ s.transfers)
unfolding transfer_answered transfer_failed is_step_up_required error_message
transfer_answered-IsShown env (returns (some result)) s = ((refl, refl, refl), refl)
transfer_answered-IsShown env (returns none) s = ((refl, refl, refl), refl)
transfer_answered-IsShown env (throws error) s = thrown-IsShown env error s
transfer_answered-IsShown env rejects s = ((refl, refl, refl), refl)

any_transfers :
    (env : Platform) (result : ApiResult TransferResponse) (calls : List TransferInput)
    (s t : TransferPage)
    → IsShown env result (record s { transfers = calls }) t
    → IsShown env result s t
any_transfers env (returns (some result)) calls s t h = h
any_transfers env (returns none) calls s t h = h
any_transfers env (throws error) calls s t h = h
any_transfers env rejects calls s t h = h

step_lem :
    (env : Platform) (result : ApiResult TransferResponse) (s : TransferPage) (call : TransferInput)
    (calls : List TransferInput)
    → s.transfers ≡ call ∷ calls
    → step env s (answers_transfer result)
      ≡ transfer_answered env result (record s { transfers = calls })
unfolding step settle_transfer
step_lem env result s call calls e = rw (e, settle_transfer) refl

-- An answer to a transfer that runs ends the call, whatever it is. A result shows the receipt with that
-- result; a reply without content shows an empty receipt with the message that the transfer failed; an
-- error whose type ends with step-up-required asks for a code, with no message; every other error shows
-- its detail, its title or its message, the first there is, and a failure of the network shows that the
-- transfer failed, both without leaving the step.
pub settle_transfer-IsShown :
    (env : Platform) (result : ApiResult TransferResponse) (s : TransferPage) (call : TransferInput)
    (calls : List TransferInput)
    → s.transfers ≡ call ∷ calls
    → IsShown env result s (step env s (answers_transfer result))
      × ((step env s (answers_transfer result)).transfers ≡ calls)
settle_transfer-IsShown env result s call calls e =
    let (shown, ended) = transfer_answered-IsShown env result (record s { transfers = calls }) in
    rw (step_lem env result s call calls e) (any_transfers env result calls s _ shown, ended)
