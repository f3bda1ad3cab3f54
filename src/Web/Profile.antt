-- ===== src/Web/Profile.antt =====
-- frontend/src/app/(app)/profile/page.tsx. The form library's `handleSubmit` hands the values over that
-- its resolver accepts, and `isSubmitting` is true until the page's handler is over. Each tab has a
-- module.
pub mod Password
pub mod Mfa
pub mod Sessions
use fernbank.Base.{Bool, true, false, List, [], ◌∷◌, String, Option, none, some}
use fernbank.Web.View.{Control, text, button}

pub data Tab : Type 0 where
  password : Tab
  mfa : Tab
  sessions : Tab
  history : Tab

-- What stands above the tab that is chosen.
unfoldable pub profile_page : List (Control Tab)
profile_page =
    text "Profile & security"
    ∷ button "Password" false password
    ∷ button "MFA" false mfa
    ∷ button "Sessions" false sessions
    ∷ button "Login history" false history
    ∷ []

abbrev pub default_tab : Tab
default_tab = password
