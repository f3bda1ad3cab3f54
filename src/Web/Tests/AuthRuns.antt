-- ===== src/Web/Tests/AuthRuns.antt =====
-- The theorems about signing in and about visits, at a visitor without a session.
use fernbank.Base.{◌≡◌, ◌⊎◌, Bool, true, false, none, some}
use fernbank.Web.Api.{ApiResult, returns, rejects}
use fernbank.Web.Auth.{
  AuthState, LoginBody, is_authenticated, login, logout, next, redirect, is_public, proxy,
}
use fernbank.Web.Auth.Visits.{proxy-follow, follow, IsLogin, login-logout}

proxy-follow_example :
    (follow false (proxy false "/transfer") ≡ next)
    × (((proxy false "/transfer" ≡ next)
          × ((is_public "/transfer" ≡ true) ⊎ (◌≡◌ {A = Bool} false true)))
        ⊎ ((proxy false "/transfer" ≡ redirect "/login" "/transfer")
            × (is_public "/transfer" ≡ false)
            × (◌≡◌ {A = Bool} false false)))
proxy-follow_example = proxy-follow false "/transfer"

abbrev nobody : AuthState
nobody = record { user = none; is_bootstrapping = false; bootstrapped = true }

abbrev accepted : ApiResult LoginBody
accepted = returns (some (record { status = "AUTHENTICATED"; mfa_token = none }))

login-logout_example :
    IsLogin accepted
      (returns none)
      nobody
      (login accepted (returns none) nobody).0
      (login accepted (returns none) nobody).1
    × (is_authenticated (logout rejects (login accepted (returns none) nobody).1) ≡ false)
login-logout_example = login-logout accepted (returns none) rejects nobody
