-- ===== src/Web/Auth/Visits.antt =====
-- Who is taken for signed in, and where a visitor ends up.
use fernbank.Base.{
  ◌≡◌, ◌≢◌, refl, ◌⊎◌, inl, inr, Bool, true, false, String, none, some, ◌==◌, eq_iff, Bool-cases,
}
use fernbank.Bff.Dashboard.{MeResponse}
use fernbank.Web.Api.{ApiResult, returns, throws, rejects}
use fernbank.Web.Auth.{
  AuthState, LoginBody, LoginResult, authenticated, mfa_required, Outcome, keeps, breaks, user_of,
  is_authenticated, login, logout, Visit, next, redirect, is_public, proxy,
}

-- Where a visitor who follows a redirect ends up.
abbrev pub follow : Bool → Visit → Visit
follow has_session_cookie next = next
follow has_session_cookie (redirect path origin) = proxy has_session_cookie path

login_is_public : proxy false "/login" ≡ next
unfolding proxy is_public
login_is_public = refl

-- A visitor is served a page after one redirect at most; and one that is not public is served at once
-- only to a visitor with a session cookie, who is sent nowhere.
pub proxy-follow :
    (has_session_cookie : Bool) (pathname : String)
    → (follow has_session_cookie (proxy has_session_cookie pathname) ≡ next)
      × (((proxy has_session_cookie pathname ≡ next)
            × ((is_public pathname ≡ true) ⊎ (has_session_cookie ≡ true)))
          ⊎ ((proxy has_session_cookie pathname ≡ redirect "/login" pathname)
              × (is_public pathname ≡ false)
              × (has_session_cookie ≡ false)))
unfolding proxy
proxy-follow true pathname = elim (Bool-cases (is_public pathname)) [
  | inl shown ↦ rw shown (refl, inl (refl, inl refl))
  | inr closed ↦ rw closed (refl, inl (refl, inr refl))
]
proxy-follow false pathname = elim (Bool-cases (is_public pathname)) [
  | inl shown ↦ rw shown (refl, inl (refl, inl refl))
  | inr closed ↦ rw closed (login_is_public, inr (refl, refl, refl))
]

-- The user behind a successful login is what the call for the user has returned.
abbrev IsLoaded : ApiResult MeResponse → AuthState → AuthState → Type 0
IsLoaded (returns me) s t = t ≡ record s { user = some me }
IsLoaded (throws error) s t = t ≡ record s { user = none }
IsLoaded rejects s t = t ≡ record s { user = none }

-- What a login comes to and the state that it leaves.
abbrev pub IsLogin :
    ApiResult LoginBody
    → ApiResult MeResponse
    → AuthState
    → Outcome LoginResult
    → AuthState
    → Type 0
IsLogin (returns (some body)) me s outcome t =
    ((body.status ≡ "AUTHENTICATED") × (outcome ≡ keeps authenticated) × IsLoaded me s t)
    ⊎ ((body.status ≢ "AUTHENTICATED") × (outcome ≡ keeps (mfa_required body.mfa_token)) × (t ≡ s))
IsLogin (returns none) me s outcome t = (outcome ≡ breaks) × (t ≡ s)
IsLogin (throws error) me s outcome t = (outcome ≡ breaks) × (t ≡ s)
IsLogin rejects me s outcome t = (outcome ≡ breaks) × (t ≡ s)

user_of-IsLoaded :
    (me : ApiResult MeResponse) (s : AuthState) → IsLoaded me s (record s { user = user_of me })
user_of-IsLoaded (returns me) s = refl
user_of-IsLoaded (throws error) s = refl
user_of-IsLoaded rejects s = refl

==-cases : (s t : String) → ((s ≡ t) × ((s == t) ≡ true)) ⊎ ((s ≢ t) × ((s == t) ≡ false))
==-cases s t = elim (Bool-cases (s == t)) [
  | inl same ↦ inl ((eq_iff s t).0 same, same)
  | inr other ↦ inr ((λ e. cc ((eq_iff s t).1 e)), other)
]

login-IsLogin :
    (body : ApiResult LoginBody) (me : ApiResult MeResponse) (s : AuthState)
    → IsLogin body me s (login body me s).0 (login body me s).1
unfolding login
login-IsLogin (returns (some body)) me s = elim (==-cases body.status "AUTHENTICATED") [
  | inl (e, same) ↦ rw same (inl (e, refl, user_of-IsLoaded me s))
  | inr (e, other) ↦ rw other (inr (e, refl, refl))
]
login-IsLogin (returns none) me s = (refl, refl)
login-IsLogin (throws error) me s = (refl, refl)
login-IsLogin rejects me s = (refl, refl)

-- A login that the server answers with the status AUTHENTICATED ends as authenticated, and the user is
-- then what the call for the user has returned, and nobody if that call failed. With any other status it
-- asks for a code under the server's token, and if it fails it breaks, both with the state as it was.
-- Signing out after it leaves nobody signed in, whatever the server answers.
pub login-logout :
    (body : ApiResult LoginBody) (me : ApiResult MeResponse) (answer : ApiResult String)
    (s : AuthState)
    → IsLogin body me s (login body me s).0 (login body me s).1
      × (is_authenticated (logout answer (login body me s).1) ≡ false)
unfolding logout
login-logout body me answer s = (login-IsLogin body me s, refl)
