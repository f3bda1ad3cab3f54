-- ===== src/Web/SignIn.antt =====
-- frontend/src/components/auth/login-form.tsx and mfa-verify-form.tsx, and
-- frontend/src/components/app-shell/auth-gate.tsx: how a visitor signs in and gets behind the gate. The
-- handlers are cut at their awaits; the form library's `handleSubmit` is an argument.
pub mod Register
pub mod Entry
use fernbank.Base.{
  ℕ, suc, Bool, true, false, not, ◌&&◌, ◌||◌, List, [], ◌∷◌, ◌++◌, String, Option, none, some, eqb,
  ◌==◌, if◌then◌else◌,
}
use fernbank.Base.Text.{truthy}
use fernbank.Bff.Dashboard.{MeResponse}
use fernbank.Web.Api.{ApiError, ApiResult, returns, throws, rejects}
use fernbank.Web.Auth.{
  AuthState, LoginBody, LoginResult, authenticated, mfa_required, Outcome, keeps, breaks,
  is_authenticated, login, verify_mfa,
}
use fernbank.Web.Forms.{Units, Issue, login_schema, mfa_verify_schema}
use fernbank.Web.Transfer.Pages.{is_pending}
use fernbank.Web.View.{
  Control, text, button, input, link, placeholder, UserInput, offered, error_message,
}
use fernbank.Web.Warmup.{WarmupState, checking, ready, failed}

pub record LoginValues : Type 0 where
  pub email : String
  pub password : String

pub record Platform : Type 0 where
  pub units : String → Units
  pub hand_over : (LoginValues → List Issue) → LoginValues → Option LoginValues
  pub hand_over_code : (String → List Issue) → String → Option String

-- A call of `verifyMfa`: the form that made it, and what it sends.
pub record MfaCall : Type 0 where
  pub form : ℕ
  pub mfa_token : String
  pub code : String

-- `form` counts the forms for a code that were mounted. `location` is the page that the router shows.
pub record SignIn : Type 0 where
  pub auth : AuthState
  pub backend_state : WarmupState
  pub retries : ℕ
  pub mfa_token : Option String
  pub values : LoginValues
  pub form : ℕ
  pub code : String
  pub logins : List LoginValues
  pub verifications : List MfaCall
  pub sent : List LoginValues
  pub location : String
  pub toasts : List String

-- The toast behind a sign-out for inactivity.
unfoldable pub reason_toast : Option String → List String
reason_toast none = []
reason_toast (some reason) =
    if reason == "idle" then "You were signed out after 5 minutes of inactivity." ∷ [] else []

abbrev pub mounted : AuthState → Option String → SignIn
mounted auth reason = record {
  auth = auth;
  backend_state = checking;
  retries = 0;
  mfa_token = none;
  values = record { email = ""; password = "" };
  form = 0;
  code = "";
  logins = [];
  verifications = [];
  sent = [];
  location = "/login";
  toasts = reason_toast reason;
}

unfoldable pub login_resolver : (String → Units) → LoginValues → List Issue
unfolding login_schema
login_resolver units values =
    login_schema (record { email = units values.email; password = units values.password })

unfoldable pub mfa_resolver : (String → Units) → String → String → List Issue
unfolding mfa_verify_schema
mfa_resolver units mfa_token code =
    mfa_verify_schema (record { mfa_token = units mfa_token; code = units code })

-- `onSubmit` of the login form up to its await.
abbrev pub on_login : Option LoginValues → SignIn → SignIn
on_login none s = s
on_login (some values) s = record s { logins = values ∷ s.logins; sent = values ∷ s.sent }

-- The error of a call that did not end in an answer the handler can read.
abbrev pub error_of : {A : Type 0} → ApiResult A → Option ApiError
error_of (returns result) = none
error_of (throws error) = some error
error_of rejects = none

abbrev pub toast : String → SignIn → SignIn
toast message s = record s { toasts = message ∷ s.toasts }

-- The form for a code is shown for a token that is there and not empty; it is another one each time.
abbrev pub set_mfa_token : Option String → SignIn → SignIn
set_mfa_token token s = record s { mfa_token = truthy token; form = suc s.form; code = "" }

abbrev pub login_ended : Outcome LoginResult → Option ApiError → SignIn → SignIn
login_ended (keeps authenticated) error s = record s { location = "/dashboard" }
login_ended (keeps (mfa_required token)) error s = set_mfa_token token s
login_ended breaks error s = toast (error_message "Something went wrong" error) s

-- `onSubmit` of the login form behind its await: `login` of the context has ended.
unfoldable pub login_answered : ApiResult LoginBody → ApiResult MeResponse → SignIn → SignIn
unfolding login error_message
login_answered body me s =
    login_ended (login body me s.auth).0 (error_of body)
      (record s { auth = (login body me s.auth).1 })

-- `onSubmit` of the form for a code.
abbrev pub on_verify : Option String → String → SignIn → SignIn
on_verify none token s = s
on_verify (some code) token s = record s {
  verifications = record { form = s.form; mfa_token = token; code = code } ∷ s.verifications;
}

abbrev pub verify_ended : Outcome (Unit {0}) → Option ApiError → SignIn → SignIn
verify_ended (keeps done) error s = record s { location = "/dashboard" }
verify_ended breaks error s = toast (error_message "Something went wrong" error) s

unfoldable pub verify_answered : ApiResult LoginBody → ApiResult MeResponse → SignIn → SignIn
unfolding verify_mfa error_message
verify_answered body me s =
    verify_ended (verify_mfa body me s.auth).0 (error_of body)
      (record s { auth = (verify_mfa body me s.auth).1 })

pub data Action : Type 0 where
  types_email : String → Action
  types_password : String → Action
  submits : Action
  retries_backend : Action
  types_code : String → Action
  verifies : String → Action
  goes_back : Action

unfoldable pub act : Platform → SignIn → Action → SignIn
unfolding login_resolver mfa_resolver
act env s (types_email typed) = record s { values = record s.values { email = typed } }
act env s (types_password typed) = record s { values = record s.values { password = typed } }
act env s submits = on_login (env.hand_over (login_resolver env.units) s.values) s
act env s retries_backend = record s { retries = suc s.retries }
act env s (types_code typed) = record s { code = typed }
act env s (verifies token) =
    on_verify (env.hand_over_code (mfa_resolver env.units token) s.code) token s
act env s goes_back = record s { mfa_token = none }

-- What the forms show of the attempts to wake the backend.
unfoldable pub backend_notice : {E : Type 0} → E → WarmupState → List (Control E)
backend_notice retry checking =
    text "Waking up the demo servers — this can take a few minutes on the free tier." ∷ []
backend_notice retry failed =
    text "Couldn't reach the demo servers." ∷ button "Try again" false retry ∷ []
backend_notice retry ready = []

abbrev pub is_ready : WarmupState → Bool
is_ready checking = false
is_ready ready = true
is_ready failed = false

unfoldable pub submit_label : Bool → Bool → String → String → String
submit_label backend_is_ready is_submitting busy label =
    if not backend_is_ready then "Waking up…" else if is_submitting then busy else label

unfoldable pub login_form : SignIn → List (Control Action)
unfolding backend_notice submit_label
login_form s =
    input "Email" s.values.email types_email
    ∷ input "Password" s.values.password types_password
    ∷ (backend_notice retries_backend s.backend_state
        ++ (button
              (submit_label (is_ready s.backend_state) (is_pending s.logins) "Signing in…"
                "Sign in")
              (not (is_ready s.backend_state) || is_pending s.logins) submits
            ∷ text "Don't have an account?"
            ∷ link "Register" "/register"
            ∷ []))

-- Whether the form on display waits for its answer.
unfoldable pub is_verifying : ℕ → List MfaCall → Bool
is_verifying form [] = false
is_verifying form (call ∷ calls) = let rest = is_verifying form calls in eqb call.form form || rest

unfoldable pub mfa_verify_form : String → SignIn → List (Control Action)
unfolding is_verifying
mfa_verify_form token s =
    text "Enter the 6-digit code from your authenticator app."
    ∷ input "Authentication code" s.code types_code
    ∷ button (if is_verifying s.form s.verifications then "Verifying…" else "Verify")
        (is_verifying s.form s.verifications) (verifies token)
    ∷ button "Back to sign in" false goes_back
    ∷ []

abbrev pub form_of : Option String → SignIn → List (Control Action)
form_of none s = login_form s
form_of (some token) s = mfa_verify_form token s

unfoldable pub sign_in_page : SignIn → List (Control Action)
unfolding login_form mfa_verify_form
sign_in_page s = form_of s.mfa_token s

-- What the gate does on a page behind it.
pub data Gate : Type 0 where
  waits : Gate
  replaces : String → Gate
  shows : Gate

unfoldable pub gate : AuthState → Gate
gate auth =
    if auth.is_bootstrapping
    then waits
    else if not (is_authenticated auth)
    then replaces "/login"
    else shows
