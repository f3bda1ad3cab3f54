-- ===== src/Web/Profile/Mfa.antt =====
-- `MfaTab` of frontend/src/app/(app)/profile/page.tsx: its state, its handlers cut at their awaits, what
-- it shows, and its runs while it stays on the page.
pub mod Controls
pub mod RecoveryCodes
use fernbank.Base.{
  Bool, true, false, not, List, [], ◌∷◌, ◌++◌, String, Option, none, some, or_else, map,
  if◌then◌else◌,
}
use fernbank.Base.Text.{truthy}
use fernbank.Web.Api.{ApiResult, returns, throws, rejects}
use fernbank.Web.Forms.{Units, Issue, mfa_enroll_confirm_schema}
use fernbank.Web.Transfer.Pages.{is_pending}
use fernbank.Web.View.{Control, text, button, input, link, UserInput, offered, error_message}

pub record Enrollment : Type 0 where
  pub secret : Option String
  pub otp_auth_uri : Option String

-- `handed` is the code that the form library's `handleSubmit` hands over, if its resolver accepts it.
pub record Platform : Type 0 where
  pub units : String → Units
  pub hand_over : (String → List Issue) → String → Option String

-- `enrolling` counts by its length the calls that start an enrolment, `confirming` holds the codes of
-- the calls that confirm one. `enrollment` and `recovery_codes` are none for null; the answer of the
-- server to the first may be undefined, which counts as null.
pub record MfaTab : Type 0 where
  pub enrollment : Option Enrollment
  pub recovery_codes : Option (List String)
  pub saved_recovery_codes : Bool
  pub code : String
  pub enrolling : List (Unit {0})
  pub confirming : List String
  pub toasts : List String

abbrev pub mounted : MfaTab
mounted = record {
  enrollment = none;
  recovery_codes = none;
  saved_recovery_codes = false;
  code = "";
  enrolling = [];
  confirming = [];
  toasts = [];
}

abbrev toast : String → MfaTab → MfaTab
toast message s = record s { toasts = message ∷ s.toasts }

-- `startEnrollment` behind its await.
unfoldable pub enroll_answered : ApiResult Enrollment → MfaTab → MfaTab
unfolding error_message
enroll_answered (returns result) s = record s { enrollment = result }
enroll_answered (throws error) s =
    toast (error_message "Failed to start MFA enrolment" (some error)) s
enroll_answered rejects s = toast (error_message "Failed to start MFA enrolment" none) s

abbrev pub on_confirm : Option String → MfaTab → MfaTab
on_confirm none s = s
on_confirm (some code) s = record s { confirming = code ∷ s.confirming }

unfoldable pub confirm_resolver : (String → Units) → String → List Issue
unfolding mfa_enroll_confirm_schema
confirm_resolver units code = mfa_enroll_confirm_schema (units code)

-- `onConfirm` behind its await: the server answers with the codes, which may be undefined.
unfoldable pub confirm_answered : ApiResult (Option (List String)) → MfaTab → MfaTab
unfolding error_message
confirm_answered (returns (some codes)) s = record s { recovery_codes = some (or_else codes []) }
confirm_answered (returns none) s = toast (error_message "Invalid code" none) s
confirm_answered (throws error) s = toast (error_message "Invalid code" (some error)) s
confirm_answered rejects s = toast (error_message "Invalid code" none) s

pub data MfaAction : Type 0 where
  starts : MfaAction
  types_code : String → MfaAction
  confirms : MfaAction
  ticks : Bool → MfaAction
  finishes : MfaAction

unfoldable pub act : Platform → MfaTab → MfaAction → MfaTab
unfolding confirm_resolver
act env s starts = record s { enrolling = tt ∷ s.enrolling }
act env s (types_code typed) = record s { code = typed }
act env s confirms = on_confirm (env.hand_over (confirm_resolver env.units) s.code) s
act env s (ticks to) = record s { saved_recovery_codes = to }
act env s finishes = record s { recovery_codes = none; enrollment = none }

-- A checkbox is a button that turns it over.
unfoldable pub codes_page : List String → Bool → List (Control MfaAction)
codes_page codes saved =
    text "MFA enabled"
    ∷ text
        "Save these recovery codes somewhere safe — each one can be used once if you lose access to your authenticator app. They won't be shown again."
    ∷ (map text codes
        ++ (button "I've saved these recovery codes" false (ticks (not saved))
            ∷ button "Done" (not saved) finishes
            ∷ []))

-- The QR code shows the URI.
abbrev pub qr_code : Option String → List (Control MfaAction)
qr_code none = []
qr_code (some uri) = link "QR code" uri ∷ []

unfoldable pub enrollment_page : Enrollment → String → List String → List (Control MfaAction)
enrollment_page enrollment code confirming =
    text "Scan this QR code"
    ∷ text "Scan with your authenticator app, then enter the 6-digit code it shows."
    ∷ (qr_code (truthy enrollment.otp_auth_uri)
        ++ (text (or_else enrollment.secret "")
            ∷ input "Authentication code" code types_code
            ∷ button (if is_pending confirming then "Confirming…" else "Confirm")
                (is_pending confirming) confirms
            ∷ []))

unfoldable pub start_page : List (Unit {0}) → List (Control MfaAction)
start_page enrolling =
    text "Multi-factor authentication"
    ∷ text
        "Add an authenticator app for a second factor at login and for step-up-verified high-value transfers."
    ∷ button (if is_pending enrolling then "Starting…" else "Enable MFA") (is_pending enrolling)
        starts
    ∷ []

abbrev pub mfa_page_of :
    Option (List String) → Option Enrollment → MfaTab → List (Control MfaAction)
mfa_page_of (some codes) enrollment s = codes_page codes s.saved_recovery_codes
mfa_page_of none (some enrollment) s = enrollment_page enrollment s.code s.confirming
mfa_page_of none none s = start_page s.enrolling

unfoldable pub mfa_tab : MfaTab → List (Control MfaAction)
unfolding codes_page enrollment_page start_page
mfa_tab s = mfa_page_of s.recovery_codes s.enrollment s

pub data Event : Type 0 where
  user : UserInput → Event
  answers_enroll : ApiResult Enrollment → Event
  answers_confirm : ApiResult (Option (List String)) → Event

abbrev pub perform : Platform → Option MfaAction → MfaTab → MfaTab
perform env none s = s
perform env (some action) s = act env s action

unfoldable pub settle_enroll : ApiResult Enrollment → List (Unit {0}) → MfaTab → MfaTab
unfolding enroll_answered
settle_enroll result [] s = s
settle_enroll result (call ∷ calls) s = enroll_answered result (record s { enrolling = calls })

unfoldable pub settle_confirm : ApiResult (Option (List String)) → List String → MfaTab → MfaTab
unfolding confirm_answered
settle_confirm result [] s = s
settle_confirm result (call ∷ calls) s = confirm_answered result (record s { confirming = calls })

unfoldable pub step : Platform → MfaTab → Event → MfaTab
unfolding settle_enroll settle_confirm
step env s (user did) = perform env (offered (mfa_tab s) did) s
step env s (answers_enroll result) = settle_enroll result s.enrolling s
step env s (answers_confirm result) = settle_confirm result s.confirming s

unfoldable pub run : Platform → MfaTab → List Event → MfaTab
unfolding step
run env s [] = s
run env s (e ∷ es) = run env (step env s e) es
