-- ===== src/Web/Auth.antt =====
-- frontend/src/lib/auth/auth-context.tsx, the signed-in user of the pages, and frontend/src/proxy.ts,
-- which sends a visitor with no session to the login page. The answers of `apiFetch` are arguments, in
-- the order of the calls.
pub mod Visits
use fernbank.Base.{
  Bool, true, false, not, ◌||◌, List, [], ◌∷◌, String, Option, none, some, ◌==◌, if◌then◌else◌,
}
use fernbank.Web.Api.{ApiResult, returns, throws, rejects}
use fernbank.Bff.Dashboard.{MeResponse}

pub data LoginResult : Type 0 where
  authenticated : LoginResult
  mfa_required : Option String → LoginResult

-- The body that the server answers to a login.
pub record LoginBody : Type 0 where
  pub status : String
  pub mfa_token : Option String

-- A promise that is kept or broken.
pub data Outcome (A : Type 0) : Type 0 where
  keeps : A → Outcome A
  breaks : Outcome A

-- `user` is none for null; inside, none is undefined.
pub record AuthState : Type 0 where
  pub user : Option (Option MeResponse)
  pub is_bootstrapping : Bool
  pub bootstrapped : Bool

-- `user !== null`.
abbrev pub is_authenticated : AuthState → Bool
is_authenticated s = elim s.user [ none ↦ false | some user ↦ true ]

-- The user that `loadUser` sets.
abbrev pub user_of : ApiResult MeResponse → Option (Option MeResponse)
user_of (returns me) = some me
user_of (throws error) = none
user_of rejects = none

unfoldable pub load_user : ApiResult MeResponse → AuthState → AuthState
load_user me s = record s { user = user_of me }

unfoldable pub bootstrap : ApiResult MeResponse → AuthState → AuthState
unfolding load_user
bootstrap me s =
    if s.bootstrapped
    then s
    else record (load_user me (record s { bootstrapped = true })) { is_bootstrapping = false }

abbrev pub login_at :
    Bool → Option String → ApiResult MeResponse → AuthState → Outcome LoginResult × AuthState
login_at true mfa_token me s = (keeps authenticated, record s { user = user_of me })
login_at false mfa_token me s = (keeps (mfa_required mfa_token), s)

unfoldable pub login :
    ApiResult LoginBody → ApiResult MeResponse → AuthState → Outcome LoginResult × AuthState
login (returns (some body)) me s = login_at (body.status == "AUTHENTICATED") body.mfa_token me s
login (returns none) me s = (breaks, s)
login (throws error) me s = (breaks, s)
login rejects me s = (breaks, s)

unfoldable pub verify_mfa :
    ApiResult LoginBody → ApiResult MeResponse → AuthState → Outcome (Unit {0}) × AuthState
unfolding load_user
verify_mfa (returns (some body)) me s =
    (keeps tt, if body.status == "AUTHENTICATED" then load_user me s else s)
verify_mfa (returns none) me s = (breaks, s)
verify_mfa (throws error) me s = (breaks, s)
verify_mfa rejects me s = (breaks, s)

-- A registration signs nobody in.
unfoldable pub register : {A : Type 0} → ApiResult A → AuthState → Outcome (Unit {0}) × AuthState
register (returns result) s = (keeps tt, s)
register (throws error) s = (breaks, s)
register rejects s = (breaks, s)

-- Whatever the server answers, the user is gone.
unfoldable pub logout : ApiResult String → AuthState → AuthState
logout answer s = record s { user = none }

pub data Visit : Type 0 where
  next : Visit
  redirect : (path from : String) → Visit

-- `PUBLIC_PATHS.has(pathname)`.
unfoldable pub is_public : String → Bool
is_public path = path == "/" || (path == "/login" || path == "/register")

unfoldable pub proxy : (has_session_cookie : Bool) → String → Visit
unfolding is_public
proxy has_session_cookie pathname =
    if is_public pathname
    then next
    else if not has_session_cookie
    then redirect "/login" pathname
    else next
