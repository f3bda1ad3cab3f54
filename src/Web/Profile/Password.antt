-- ===== src/Web/Profile/Password.antt =====
-- `PasswordTab` of frontend/src/app/(app)/profile/page.tsx.
use fernbank.Base.{Bool, true, false, List, [], ◌∷◌, String, Option, none, some, if◌then◌else◌}
use fernbank.Web.Api.{ApiResult, returns, throws, rejects}
use fernbank.Web.Forms.{Units, Issue, change_password_schema}
use fernbank.Web.View.{Control, text, button, input, error_message}

pub record PasswordValues : Type 0 where
  pub current_password : String
  pub new_password : String
  pub confirm_new_password : String

-- `sent` holds the old and the new password of each call, the latest first.
pub record PasswordTab : Type 0 where
  pub values : PasswordValues
  pub is_submitting : Bool
  pub sent : List (String × String)
  pub toasts : List String

abbrev pub default_values : PasswordValues
default_values = record { current_password = ""; new_password = ""; confirm_new_password = "" }

unfoldable pub resolver : (String → Units) → PasswordValues → List Issue
unfolding change_password_schema
resolver units values = change_password_schema (record {
  current_password = units values.current_password;
  new_password = units values.new_password;
  confirm_new_password = units values.confirm_new_password;
})

-- `onSubmit` up to its await, of the values that the library hands over.
unfoldable pub on_submit : Option PasswordValues → PasswordTab → PasswordTab
on_submit none s = s
on_submit (some values) s = record s {
  is_submitting = true;
  sent = (values.current_password, values.new_password) ∷ s.sent;
}

abbrev toast : String → PasswordTab → PasswordTab
toast message s = record s { is_submitting = false; toasts = message ∷ s.toasts }

-- `onSubmit` behind its await.
unfoldable pub change_answered : {A : Type 0} → ApiResult A → PasswordTab → PasswordTab
unfolding error_message
change_answered (returns result) s = record (toast "Password changed" s) { values = default_values }
change_answered (throws error) s = toast (error_message "Failed to change password" (some error)) s
change_answered rejects s = toast (error_message "Failed to change password" none) s

pub data PasswordAction : Type 0 where
  types_current : String → PasswordAction
  types_new : String → PasswordAction
  types_confirmation : String → PasswordAction
  submits : PasswordAction

unfoldable pub password_tab : PasswordTab → List (Control PasswordAction)
password_tab s =
    text "Change password"
    ∷ input "Current password" s.values.current_password types_current
    ∷ input "New password" s.values.new_password types_new
    ∷ input "Confirm new password" s.values.confirm_new_password types_confirmation
    ∷ button (if s.is_submitting then "Changing…" else "Change password") s.is_submitting submits
    ∷ []

-- `hand_over` is `handleSubmit`.
unfoldable pub act :
    ((PasswordValues → List Issue) → PasswordValues → Option PasswordValues)
    → (String → Units)
    → PasswordTab
    → PasswordAction
    → PasswordTab
unfolding resolver on_submit
act hand_over units s (types_current typed) = record s {
  values = record s.values { current_password = typed };
}
act hand_over units s (types_new typed) = record s {
  values = record s.values { new_password = typed };
}
act hand_over units s (types_confirmation typed) = record s {
  values = record s.values { confirm_new_password = typed };
}
act hand_over units s submits = on_submit (hand_over (resolver units) s.values) s
