-- ===== src/Web/Transfer/Completion.antt =====
-- That a transfer can be made on frontend/src/app/(app)/transfer/page.tsx, step by step.
use fernbank.Base.{◌≡◌, refl, true, false, List, [], ◌∷◌, String, none, some, map}
use fernbank.Base.Text.{is_empty}
use fernbank.Bff.Dashboard.{AccountResponse}
use fernbank.Web.Api.{returns}
use fernbank.Web.Forms.{TransferInput, transfer_schema}
use fernbank.Web.Iban.{is_valid_fernbank_account_number}
use fernbank.Web.View.{offered, enter, presses, enters, is_option}
use fernbank.Web.Transfer.{
  receipt, step_up, recipient, review, new, Step, TransferResponse, Platform, TransferPage, mounted,
  data_of, build_transfer_body, details, destination_account_number, is_step_up_required,
  transfer_failed, transfer_answered, handle_confirm,
}
use fernbank.Web.Transfer.Pages.{
  account_option, act, transfer_page, source_step, recipient_step, amount_step, review_step,
  current_step_index,
}
use fernbank.Web.Transfer.Machine.{
  Event, user, answers_transfer, fetches_accounts, settle_transfer, step, run,
}

-- What a user does who sends an amount to a new recipient, and the answer.
abbrev pub visit :
    List AccountResponse → String → String → String → String → TransferResponse → List Event
visit accounts source number amount currency result =
    fetches_accounts accounts
    ∷ user (enters 6 source)
    ∷ user (presses 7)
    ∷ user (presses 6)
    ∷ user (enters 7 number)
    ∷ user (presses 9)
    ∷ user (enters 5 amount)
    ∷ user (enters 6 currency)
    ∷ user (presses 9)
    ∷ user (presses 14)
    ∷ answers_transfer (returns (some result))
    ∷ []

abbrev pub asked : Platform → String → String → String → String → TransferInput
asked env source number amount currency = record {
  source_account_id = env.units source;
  destination_account_id = none;
  destination_account_number = some (env.units (env.upper_case number));
  amount = record { amount = env.units amount; currency = env.units (env.upper_case currency) };
  description = none;
}

-- The page behind each of these events.
module _ (env : Platform) (accounts : List AccountResponse) (source number amount currency : String)
    (is_there : is_option source (("", "Select an account") ∷ map (account_option env) accounts)
      ≡ true)
    (is_chosen : is_empty source ≡ false)
    (is_number : is_valid_fernbank_account_number (env.units (env.upper_case number)) ≡ true)
    (passes : transfer_schema env.refuses_uuid env.number_value
        (asked env source number amount currency)
      ≡ []) where
  abbrev fetched : TransferPage
  fetched = record mounted { accounts = some accounts; is_accounts_pending = false }

  abbrev chosen : TransferPage
  chosen = record fetched { source_account_id = source }

  abbrev at_recipient : TransferPage
  at_recipient = record chosen { step = recipient }

  abbrev at_new : TransferPage
  at_new = record at_recipient { recipient_mode = new }

  abbrev named : TransferPage
  named = record at_new { new_recipient_number = env.upper_case number }

  abbrev at_amount : TransferPage
  at_amount = record named { step = fernbank.Web.Transfer.amount }

  abbrev priced : TransferPage
  priced = record at_amount { amount = amount }

  abbrev filled_in : TransferPage
  filled_in = record priced { currency = env.upper_case currency }

  abbrev at_review : TransferPage
  at_review = record filled_in { step = review }

  fetch : step env mounted (fetches_accounts accounts) ≡ fetched
  unfolding step
  fetch = refl

  choose : step env fetched (user (enters 6 source)) ≡ chosen
  unfolding step transfer_page source_step offered enter act current_step_index
  choose = rw is_there refl

  proceed : step env chosen (user (presses 7)) ≡ at_recipient
  unfolding step transfer_page source_step offered act current_step_index
  proceed = rw is_chosen refl

  switch : step env at_recipient (user (presses 6)) ≡ at_new
  unfolding step transfer_page recipient_step offered act current_step_index
  switch = refl

  name_it : step env at_new (user (enters 7 number)) ≡ named
  unfolding step transfer_page recipient_step offered enter act current_step_index
  name_it = refl

  proceed_named : step env named (user (presses 9)) ≡ at_amount
  unfolding step transfer_page recipient_step offered act current_step_index
      destination_account_number
  proceed_named = rw is_number refl

  price : step env at_amount (user (enters 5 amount)) ≡ priced
  unfolding step transfer_page amount_step offered enter act current_step_index
  price = refl

  set_currency : step env priced (user (enters 6 currency)) ≡ filled_in
  unfolding step transfer_page amount_step offered enter act current_step_index
  set_currency = refl

  look : step env filled_in (user (presses 9)) ≡ at_review
  unfolding step transfer_page amount_step offered act current_step_index build_transfer_body
      details destination_account_number
  look = rw passes refl

  confirm : step env at_review (user (presses 14)) ≡ record at_review {
    transfers = asked env source number amount currency ∷ [];
    sent = asked env source number amount currency ∷ [];
  }
  unfolding step transfer_page review_step offered act current_step_index handle_confirm
      build_transfer_body details destination_account_number
  confirm = rw passes refl

  answer :
      (result : TransferResponse)
      → step env
          (record at_review {
            transfers = asked env source number amount currency ∷ [];
            sent = asked env source number amount currency ∷ [];
          })
          (answers_transfer (returns (some result)))
        ≡ transfer_answered env
            (returns (some result))
            (record at_review { sent = asked env source number amount currency ∷ [] })
  unfolding step settle_transfer
  answer result = refl

  visit-confirmed :
      (result : TransferResponse)
      → run env mounted (visit accounts source number amount currency result)
        ≡ transfer_answered env
            (returns (some result))
            (record at_review { sent = asked env source number amount currency ∷ [] })
  unfolding run
  visit-confirmed result =
      rw
        (fetch, choose, proceed, switch, name_it, proceed_named, price, set_currency, look, confirm)
        (answer result)

-- The source account is one of the select's, and the number and the form pass their checks: then the
-- user who fills in the steps one behind the other sends the form once and gets the receipt.
pub run-visit :
    (env : Platform) (accounts : List AccountResponse) (source number amount currency : String)
    (result : TransferResponse)
    → is_option source (("", "Select an account") ∷ map (account_option env) accounts) ≡ true
    → is_empty source ≡ false
    → is_valid_fernbank_account_number (env.units (env.upper_case number)) ≡ true
    → transfer_schema env.refuses_uuid env.number_value (asked env source number amount currency)
      ≡ []
    → ((run env mounted (visit accounts source number amount currency result)).step ≡ receipt)
      × ((run env mounted (visit accounts source number amount currency result)).receipt
          ≡ some result)
      × ((run env mounted (visit accounts source number amount currency result)).sent
          ≡ asked env source number amount currency ∷ [])
unfolding transfer_answered
run-visit env accounts source number amount currency result is_there is_chosen is_number passes =
    rw
      (visit-confirmed env accounts source number amount currency is_there is_chosen is_number
        passes result)
      (refl, refl, refl)
