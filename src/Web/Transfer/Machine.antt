-- ===== src/Web/Transfer/Machine.antt =====
-- frontend/src/app/(app)/transfer/page.tsx over time: what the user does to the controls that it shows,
-- the answers to its calls, and the data of its two queries, in any order.
use fernbank.Base.{Bool, false, List, [], ◌∷◌, Option, none, some}
use fernbank.Bff.Dashboard.{AccountResponse}
use fernbank.Web.Api.{ApiResult}
use fernbank.Web.View.{UserInput, offered}
use fernbank.Web.Forms.{TransferInput}
use fernbank.Web.Transfer.{
  TransferResponse, PayeeResponse, Platform, TransferPage, transfer_answered, step_up_answered,
}
use fernbank.Web.Transfer.Pages.{Action, act, transfer_page}

pub data Event : Type 0 where
  user : UserInput → Event
  answers_transfer : ApiResult TransferResponse → Event
  answers_step_up : ApiResult Bool → Event
  fetches_accounts : List AccountResponse → Event
  fetches_payees : List PayeeResponse → Event
  fails_accounts : Event
  fails_payees : Event

abbrev pub perform : Platform → Option Action → TransferPage → TransferPage
perform env none s = s
perform env (some action) s = act env s action

-- An answer is that to the call that was sent last, if one runs.
unfoldable pub settle_transfer :
    Platform → ApiResult TransferResponse → List TransferInput → TransferPage → TransferPage
unfolding transfer_answered
settle_transfer env result [] s = s
settle_transfer env result (call ∷ calls) s =
    transfer_answered env result (record s { transfers = calls })

unfoldable pub settle_step_up :
    ApiResult Bool → List (Option TransferInput) → TransferPage → TransferPage
unfolding step_up_answered
settle_step_up result [] s = s
settle_step_up result (body ∷ calls) s =
    step_up_answered result body (record s { verifications = calls })

unfoldable pub step : Platform → TransferPage → Event → TransferPage
unfolding settle_transfer settle_step_up
step env s (user did) = perform env (offered (transfer_page env s) did) s
step env s (answers_transfer result) = settle_transfer env result s.transfers s
step env s (answers_step_up result) = settle_step_up result s.verifications s
step env s (fetches_accounts accounts) = record s {
  accounts = some accounts;
  is_accounts_pending = false;
}
step env s (fetches_payees payees) = record s { payees = some payees; is_payees_pending = false }
step env s fails_accounts = record s { is_accounts_pending = false }
step env s fails_payees = record s { is_payees_pending = false }

unfoldable pub run : Platform → TransferPage → List Event → TransferPage
unfolding step
run env s [] = s
run env s (e ∷ es) = run env (step env s e) es
