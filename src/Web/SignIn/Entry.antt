-- ===== src/Web/SignIn/Entry.antt =====
-- The login page over time, while it is on display: what the user does, the answers to its calls, and
-- the attempts to wake the backend. And that a user with a second factor gets behind the gate.
use fernbank.Base.{◌≡◌, refl, false, List, [], ◌∷◌, String, Option, none, some}
use fernbank.Base.Text.{truthy}
use fernbank.Bff.Dashboard.{MeResponse}
use fernbank.Web.Api.{ApiResult, returns, throws, rejects}
use fernbank.Web.Auth.{AuthState, LoginBody, login, verify_mfa, load_user}
use fernbank.Web.View.{UserInput, presses, enters, offered, enter}
use fernbank.Web.Warmup.{WarmupState, ready}
use fernbank.Web.SignIn.{
  LoginValues, MfaCall, Platform, SignIn, mounted, login_resolver, mfa_resolver, login_answered,
  verify_answered, Action, act, login_form, mfa_verify_form, is_verifying, sign_in_page,
  backend_notice, Gate, replaces, shows, gate,
}

pub data Event : Type 0 where
  user : UserInput → Event
  answers_login : ApiResult LoginBody → ApiResult MeResponse → Event
  answers_mfa : ApiResult LoginBody → ApiResult MeResponse → Event
  warms : WarmupState → Event

abbrev pub perform : Platform → Option Action → SignIn → SignIn
perform env none s = s
perform env (some action) s = act env s action

-- An answer is that to the call that was made last, if one runs; `me` is the answer to the call for the
-- user that may follow.
unfoldable pub settle_login :
    ApiResult LoginBody → ApiResult MeResponse → List LoginValues → SignIn → SignIn
unfolding login_answered
settle_login body me [] s = s
settle_login body me (call ∷ calls) s = login_answered body me (record s { logins = calls })

unfoldable pub settle_mfa :
    ApiResult LoginBody → ApiResult MeResponse → List MfaCall → SignIn → SignIn
unfolding verify_answered
settle_mfa body me [] s = s
settle_mfa body me (call ∷ calls) s = verify_answered body me (record s { verifications = calls })

unfoldable pub step : Platform → SignIn → Event → SignIn
unfolding settle_login settle_mfa
step env s (user did) = perform env (offered (sign_in_page s) did) s
step env s (answers_login body me) = settle_login body me s.logins s
step env s (answers_mfa body me) = settle_mfa body me s.verifications s
step env s (warms state) = record s { backend_state = state }

unfoldable pub run : Platform → SignIn → List Event → SignIn
unfolding step
run env s [] = s
run env s (e ∷ es) = run env (step env s e) es

-- What a user does who is asked for a code, with the answers of the server.
abbrev pub visit : String → String → String → String → ApiResult MeResponse → List Event
visit email password token code me =
    warms ready
    ∷ user (enters 0 email)
    ∷ user (enters 1 password)
    ∷ user (presses 2)
    ∷ answers_login (returns (some (record { status = "MFA_REQUIRED"; mfa_token = some token }))) me
    ∷ user (enters 1 code)
    ∷ user (presses 2)
    ∷ answers_mfa (returns (some (record { status = "AUTHENTICATED"; mfa_token = none }))) me
    ∷ []

-- What the gate of the pages behind the login does on an answer to the call for the user.
abbrev pub gate_for : ApiResult MeResponse → Gate
gate_for (returns me) = shows
gate_for (throws error) = replaces "/login"
gate_for rejects = replaces "/login"

-- The state behind each of these events.
module _ (env : Platform) (auth : AuthState) (reason : Option String)
    (email password token code : String) (me : ApiResult MeResponse)
    (is_form : env.hand_over
        (login_resolver env.units)
        (record { email = email; password = password })
      ≡ some (record { email = email; password = password }))
    (is_token : truthy (some token) ≡ some token)
    (is_code : env.hand_over_code (mfa_resolver env.units token) code ≡ some code) where
  abbrev woken : SignIn
  woken = record (mounted auth reason) { backend_state = ready }

  abbrev values : LoginValues
  values = record { email = email; password = password }

  abbrev filled : SignIn
  filled = record woken { values = values }

  abbrev asked : SignIn
  asked = record filled { sent = values ∷ []; mfa_token = some token; form = 1 }

  abbrev coded : SignIn
  coded = record asked { code = code }

  wake : step env (mounted auth reason) (warms ready) ≡ woken
  unfolding step
  wake = refl

  fill_email :
      step env woken (user (enters 0 email))
      ≡ record woken { values = record { email = email; password = "" } }
  unfolding step sign_in_page login_form backend_notice offered enter act
  fill_email = refl

  fill_password :
      step env
        (record woken { values = record { email = email; password = "" } })
        (user (enters 1 password))
      ≡ filled
  unfolding step sign_in_page login_form backend_notice offered enter act
  fill_password = refl

  submit_form :
      step env filled (user (presses 2))
      ≡ record filled { logins = values ∷ []; sent = values ∷ [] }
  unfolding step sign_in_page login_form backend_notice offered act
  submit_form = rw is_form refl

  ask :
      step env
        (record filled { logins = values ∷ []; sent = values ∷ [] })
        (answers_login
          (returns (some (record { status = "MFA_REQUIRED"; mfa_token = some token })))
          me)
      ≡ asked
  unfolding step settle_login login_answered login
  ask = rw is_token refl

  fill_code : step env asked (user (enters 1 code)) ≡ coded
  unfolding step sign_in_page mfa_verify_form offered enter act
  fill_code = refl

  abbrev verifying : SignIn
  verifying = record coded {
    verifications = record { form = 1; mfa_token = token; code = code } ∷ [];
  }

  verify_it : step env coded (user (presses 2)) ≡ verifying
  unfolding step sign_in_page mfa_verify_form is_verifying offered act
  verify_it = rw is_code refl

  abbrev entered : SignIn
  entered = record coded { auth = load_user me auth; location = "/dashboard" }

  enter_in :
      step env verifying
        (answers_mfa (returns (some (record { status = "AUTHENTICATED"; mfa_token = none }))) me)
      ≡ entered
  unfolding step settle_mfa verify_answered verify_mfa
  enter_in = refl

  visit-entered : run env (mounted auth reason) (visit email password token code me) ≡ entered
  unfolding run
  visit-entered =
      rw (wake, fill_email, fill_password, submit_form, ask, fill_code, verify_it) enter_in

gate-load_user :
    (me : ApiResult MeResponse) (auth : AuthState)
    → auth.is_bootstrapping ≡ false
    → gate (load_user me auth) ≡ gate_for me
unfolding gate load_user
gate-load_user (returns loaded) auth ended = rw ended refl
gate-load_user (throws error) auth ended = rw ended refl
gate-load_user rejects auth ended = rw ended refl

-- The form library accepts the e-mail address with the password and, in the second form, the code, and
-- the server asks for a code with a token that is not empty and then accepts it. Then a user who fills
-- in the two forms sends the password once and goes to the dashboard, and the gate there shows the page
-- if the server answers who the user is, and sends the user back to the login page if that call fails,
-- with an error or without an answer.
pub run-enters :
    (env : Platform) (auth : AuthState) (reason : Option String)
    (email password token code : String) (me : ApiResult MeResponse)
    → auth.is_bootstrapping ≡ false
    → env.hand_over (login_resolver env.units) (record { email = email; password = password })
      ≡ some (record { email = email; password = password })
    → truthy (some token) ≡ some token
    → env.hand_over_code (mfa_resolver env.units token) code ≡ some code
    → ((run env (mounted auth reason) (visit email password token code me)).location ≡ "/dashboard")
      × ((run env (mounted auth reason) (visit email password token code me)).sent
          ≡ record { email = email; password = password } ∷ [])
      × (gate (run env (mounted auth reason) (visit email password token code me)).auth
          ≡ gate_for me)
run-enters env auth reason email password token code me ended is_form is_token is_code =
    rw (visit-entered env auth reason email password token code me is_form is_token is_code)
      (refl, refl, gate-load_user me auth ended)
