-- ===== src/Web/SignIn/Register.antt =====
-- frontend/src/components/auth/register-form.tsx.
use fernbank.Base.{Bool, not, ◌||◌, List, [], ◌∷◌, ◌++◌, String, Option, none, some}
use fernbank.Web.Api.{ApiResult, returns, throws, rejects}
use fernbank.Web.Forms.{Units, Issue, register_schema}
use fernbank.Web.Transfer.Pages.{is_pending}
use fernbank.Web.View.{Control, text, button, input, link, error_message}
use fernbank.Web.Warmup.{WarmupState}
use fernbank.Web.SignIn.{backend_notice, is_ready, submit_label}

pub record RegisterValues : Type 0 where
  pub full_name : String
  pub email : String
  pub password : String

-- `registrations` holds the calls that run; `location` is the page that the router shows.
pub record RegisterForm : Type 0 where
  pub backend_state : WarmupState
  pub values : RegisterValues
  pub registrations : List RegisterValues
  pub location : String
  pub toasts : List String

unfoldable pub register_resolver : (String → Units) → (Units → Bool) → RegisterValues → List Issue
unfolding register_schema
register_resolver units is_email values = register_schema is_email (record {
  full_name = units values.full_name;
  email = units values.email;
  password = units values.password;
})

-- `onSubmit` up to its await, of the values that the form library hands over, and behind it.
unfoldable pub on_register : Option RegisterValues → RegisterForm → RegisterForm
on_register none s = s
on_register (some values) s = record s { registrations = values ∷ s.registrations }

abbrev toast : String → RegisterForm → RegisterForm
toast message s = record s { toasts = message ∷ s.toasts }

unfoldable pub register_answered : {A : Type 0} → ApiResult A → RegisterForm → RegisterForm
unfolding error_message
register_answered (returns result) s = record (toast "Account created — sign in to continue." s) {
  location = "/login";
}
register_answered (throws error) s = toast (error_message "Something went wrong" (some error)) s
register_answered rejects s = toast (error_message "Something went wrong" none) s

pub data RegisterAction : Type 0 where
  types_full_name : String → RegisterAction
  types_email : String → RegisterAction
  types_password : String → RegisterAction
  retries_backend : RegisterAction
  submits : RegisterAction

unfoldable pub register_form : RegisterForm → List (Control RegisterAction)
unfolding backend_notice submit_label
register_form s =
    input "Full name" s.values.full_name types_full_name
    ∷ input "Email" s.values.email types_email
    ∷ input "Password" s.values.password types_password
    ∷ (backend_notice retries_backend s.backend_state
        ++ (button
              (submit_label (is_ready s.backend_state) (is_pending s.registrations)
                "Creating account…" "Create account")
              (not (is_ready s.backend_state) || is_pending s.registrations) submits
            ∷ text "Already have an account?"
            ∷ link "Sign in" "/login"
            ∷ []))
