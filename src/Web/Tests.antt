-- ===== src/Web/Tests.antt =====
-- Concrete inputs for the theorems about the web client, and runs of its code on them.
use fernbank.Base.{◌+◌, ◌≤◌, ◌⊎◌, ℕ, zero, suc, arith, ◌≡◌, refl, true, false, List, [], ◌∷◌, ◌++◌}
use fernbank.Web.IdleLogout.{
  Event, activity, stays, fires, passes, unmounts, step, run, mount, IdleLogout, register_activity,
  fire, find_due, cancel, clear_timers, ring,
}
use fernbank.Web.IdleLogout.Timers.{run-idle, sign_outs}
use fernbank.Web.Iban.{
  is_valid_fernbank_account_number, to_numeric_string, all_digits, big_int_from,
}
use fernbank.Web.Iban.Checksum.{is_valid_fernbank_account_number-slip}
mod ApiRuns
mod AuthRuns
mod FormRuns
mod PageRuns
mod TransferRuns
mod StatementRuns
mod PayeeRuns
mod ProfileRuns
mod SignInRuns

abbrev zeros : ℕ → List ℕ
zeros n = elim n [ zero ↦ [] | suc (n → rest) ↦ b'0' ∷ rest ]

-- FB27 and a BBAN of zeros.
abbrev account_number : List ℕ
account_number = b'F' ∷ b'B' ∷ b'2' ∷ b'7' ∷ (zeros 15 ++ (b'0' ∷ []))

account_number-valid : is_valid_fernbank_account_number account_number ≡ true
unfolding is_valid_fernbank_account_number to_numeric_string all_digits big_int_from
account_number-valid = refl

is_valid_fernbank_account_number-slip_example :
    is_valid_fernbank_account_number (b'F' ∷ b'B' ∷ b'2' ∷ b'7' ∷ (zeros 15 ++ (b'1' ∷ []))) ≡ false
is_valid_fernbank_account_number-slip_example =
    is_valid_fernbank_account_number-slip b'F' b'B' b'2' b'7' b'0' b'1' (zeros 15) [] (ground arith)
      account_number-valid

-- The warning comes, the user stays, and then leaves for five minutes.
abbrev evening : List Event
evening = passes 240000 ∷ fires 1 ∷ stays ∷ passes 300000 ∷ []

run-idle_example :
    ((sign_outs (step (run (mount 5000) evening) (fires 5)).effects
        ≡ sign_outs (run (mount 5000) evening).effects)
      ⊎ ((run (mount 5000) evening).last_activity + 300000 ≤ (run (mount 5000) evening).now))
    × ((step (run (mount 5000) evening) unmounts).timers ≡ [])
run-idle_example = run-idle 5000 5 evening

-- The timer of that run does sign the user out.
evening_signs_out : sign_outs (step (run (mount 5000) evening) (fires 5)).effects ≡ 1
unfolding step run mount
evening_signs_out = refl
