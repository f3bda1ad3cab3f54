-- ===== src/Web/Tests/TransferRuns.antt =====
-- The theorems about the transfer page, for a user who sends an amount to a new recipient.
use Prim.Native.Char.{code}
use fernbank.Base.{
  ◌+◌, ◌≤◌, ◌≡◌, refl, ◌⊎◌, true, false, List, [], ◌∷◌, String, none, some, length, All, get_elem?,
}
use fernbank.Base.Int.{pos}
use fernbank.Bff.Dashboard.{AccountResponse}
use fernbank.Web.Api.{rejects}
use fernbank.Web.Forms.{
  Units, finite, transfer_schema, transfer_fields, money_dto_schema, all_upper,
}
use fernbank.Web.Iban.{
  is_valid_fernbank_account_number, to_numeric_string, all_digits, big_int_from,
}
use fernbank.Web.View.{offered, presses, text, is_option}
use fernbank.Web.Transfer.{
  receipt, review, Platform, TransferPage, TransferResponse, mounted, destination_account_number,
  details,
}
use fernbank.Web.Transfer.Pages.{transfer_page, review_step, current_step_index}
use fernbank.Web.Transfer.Machine.{run, step, user, answers_transfer}
use fernbank.Web.Transfer.Controls.{is_step_up}
use fernbank.Web.Transfer.Sending.{run-sends}
use fernbank.Web.Transfer.Answers.{IsConfirmed, review-confirm, IsShown, settle_transfer-IsShown}
use fernbank.Web.Transfer.Completion.{visit, asked, run-visit}

abbrev pub units_of : String → Units
units_of String.[] = []
units_of (String.◌∷◌ c s) = code c ∷ units_of s

abbrev browser : Platform
browser = record {
  units = units_of;
  upper_case = λ s. s;
  refuses_uuid = λ s. none;
  number_value = λ s. finite (pos 1) (pos 0);
  intl = λ currency amount. none;
  local_time = λ time. time;
  ends_with = λ s suffix. false;
}

abbrev own_account : AccountResponse
own_account = record {
  id = some "a1";
  account_number = none;
  type = none;
  status = none;
  balance = none;
  created_at = none;
}

abbrev result : TransferResponse
result = record { transaction_id = some "t1"; source_new_balance = none; executed_at = none }

abbrev pub number : String
number = "FB270000000000000000"

abbrev accounts : List AccountResponse
accounts = own_account ∷ []

run-sends_example :
    All
      (λ body. transfer_schema browser.refuses_uuid browser.number_value body ≡ [])
      (run browser mounted (visit accounts "a1" number "10" "EUR" result)).sent
    × (length (run browser mounted (visit accounts "a1" number "10" "EUR" result)).transfers
          + length
              (run browser mounted (visit accounts "a1" number "10" "EUR" result)).verifications
        ≤ 1)
    × ((length (run browser mounted (visit accounts "a1" number "10" "EUR" result)).verifications
          ≡ 0)
        ⊎ (is_step_up (run browser mounted (visit accounts "a1" number "10" "EUR" result)).step
            ≡ true))
run-sends_example = run-sends browser (visit accounts "a1" number "10" "EUR" result)

run-visit_example :
    ((run browser mounted (visit accounts "a1" number "10" "EUR" result)).step ≡ receipt)
    × ((run browser mounted (visit accounts "a1" number "10" "EUR" result)).receipt ≡ some result)
    × ((run browser mounted (visit accounts "a1" number "10" "EUR" result)).sent
        ≡ asked browser "a1" number "10" "EUR" ∷ [])
unfolding is_option is_valid_fernbank_account_number to_numeric_string all_digits big_int_from
    transfer_schema transfer_fields money_dto_schema all_upper
run-visit_example = run-visit browser accounts "a1" number "10" "EUR" result refl refl refl refl

-- The page at the review of these details.
abbrev reviewed : TransferPage
reviewed = record mounted {
  accounts = some accounts;
  step = review;
  source_account_id = "a1";
  recipient_mode = fernbank.Web.Transfer.new;
  new_recipient_number = number;
  amount = "10";
}

review-confirm_example :
    (get_elem? (transfer_page browser reviewed) 8
      ≡ some (text (destination_account_number reviewed)))
    × ((details browser reviewed).destination_account_number
        ≡ some (browser.units (destination_account_number reviewed)))
    × IsConfirmed browser reviewed (step browser reviewed (user (presses 14)))
    × (length reviewed.transfers ≡ 0)
unfolding transfer_page review_step offered current_step_index
review-confirm_example = review-confirm browser reviewed (presses 14) refl refl

-- The call is answered by an error of the network.
settle_transfer-IsShown_example :
    IsShown browser rejects
      (record reviewed { transfers = asked browser "a1" number "10" "EUR" ∷ [] })
      (step browser
        (record reviewed { transfers = asked browser "a1" number "10" "EUR" ∷ [] })
        (answers_transfer rejects))
    × ((step browser
          (record reviewed { transfers = asked browser "a1" number "10" "EUR" ∷ [] })
          (answers_transfer rejects)).transfers
        ≡ [])
settle_transfer-IsShown_example =
    settle_transfer-IsShown browser rejects
      (record reviewed { transfers = asked browser "a1" number "10" "EUR" ∷ [] })
      (asked browser "a1" number "10" "EUR") [] refl
