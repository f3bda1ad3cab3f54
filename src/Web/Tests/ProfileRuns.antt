-- ===== src/Web/Tests/ProfileRuns.antt =====
-- The theorem about the recovery codes, for a user who enrols twice: the codes of the second time are
-- taken for saved at once.
use fernbank.Base.{◌≡◌, refl, true, List, [], ◌∷◌, ◌++◌, none, some}
use fernbank.Web.Api.{returns}
use fernbank.Web.View.{presses, enters, offered, enter}
use fernbank.Web.Profile.Mfa.{
  Platform, Event, user, answers_enroll, answers_confirm, run, step, mounted, act, mfa_tab,
  codes_page, enrollment_page, start_page, settle_enroll, settle_confirm, enroll_answered,
  confirm_answered,
}
use fernbank.Web.Tests.TransferRuns.{units_of}

abbrev browser : Platform
browser = record { units = units_of; hand_over = λ check code. some code }

-- Starts, confirms a code, and gets one recovery code.
abbrev enrols : List Event
enrols =
    user (presses 2)
    ∷ answers_enroll (returns (some (record { secret = some "s"; otp_auth_uri = none })))
    ∷ user (enters 3 "123456")
    ∷ user (presses 4)
    ∷ answers_confirm (returns (some (some ("r1" ∷ []))))
    ∷ []

-- Ticks the codes, puts them away, and enrols again.
abbrev twice : List Event
twice = enrols ++ (user (presses 3) ∷ user (presses 4) ∷ enrols)

saved_at_once : (run browser mounted twice).saved_recovery_codes ≡ true
unfolding run step offered enter act mfa_tab codes_page enrollment_page start_page settle_enroll
    settle_confirm enroll_answered confirm_answered
saved_at_once = refl
