-- ===== src/Web/Profile/Mfa/RecoveryCodes.antt =====
-- What becomes of the recovery codes that `MfaTab` of frontend/src/app/(app)/profile/page.tsx shows.
use fernbank.Base.{ℕ, ◌≤◌, ◌≡◌, ◌⊎◌, Bool, true, List, String, none, some, length}
use fernbank.Web.View.{offered}
use fernbank.Web.Profile.Mfa.{MfaTab, ticks, mfa_tab, Event, user, answers_enroll, answers_confirm}

-- While codes are shown no code is being confirmed.
abbrev IsTidy : MfaTab → Type 0
IsTidy s = (length s.confirming ≤ 1) × ((s.recovery_codes ≡ none) ⊎ (length s.confirming ≡ 0))

-- The user has pressed the checkbox.
abbrev pub IsTick : MfaTab → Event → Type 0
IsTick s (user did) = (to : Bool) × (offered (mfa_tab s) did ≡ some (ticks to))
IsTick s (answers_enroll result) = ◌≡◌ {A = ℕ} 0 1
IsTick s (answers_confirm result) = ◌≡◌ {A = ℕ} 0 1

-- What an event may do to codes on display, and to the tick.
abbrev pub Keeps : MfaTab → List String → Event → MfaTab → Type 0
Keeps s codes e t =
    ((t.recovery_codes ≡ some codes)
      ⊎ ((t.recovery_codes ≡ none)
          × (s.saved_recovery_codes ≡ true)
          × (t.saved_recovery_codes ≡ true)))
    × ((t.saved_recovery_codes ≡ s.saved_recovery_codes) ⊎ IsTick s e)
