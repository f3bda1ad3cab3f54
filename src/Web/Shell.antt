-- ===== src/Web/Shell.antt =====
-- What stands around the pages: app-sidebar.tsx, user-menu.tsx and theme-toggle.tsx of
-- frontend/src/components/app-shell, the pages for errors, and
-- frontend/src/hooks/use-transaction-notifications.ts.
use fernbank.Base.{
  Bool, false, List, [], ◌∷◌, String, Option, none, some, or_else, take, ◌==◌, map, if◌then◌else◌,
}
use fernbank.Base.Text.{◌+++◌, is_empty, split, join, truthy}
use fernbank.Bff.Dashboard.{MeResponse, StatementEntryResponse}
use fernbank.Web.Auth.{AuthState, logout}
use fernbank.Web.Api.{ApiResult}
use fernbank.Web.Format.{format_money}
use fernbank.Web.View.{Control, text, button, link}

-- An entry of the sidebar: its address and its label.
abbrev pub nav_items : List (String × String)
nav_items =
    ("/dashboard", "Dashboard")
    ∷ ("/transfer", "Transfer")
    ∷ ("/payees", "Payees")
    ∷ ("/profile", "Profile")
    ∷ []

abbrev nav_item : String → String × String → Bool × (String × String)
nav_item pathname (href, label) = (pathname == href, (href, label))

-- Each item with whether it is the active one.
unfoldable pub app_sidebar : String → List (Bool × (String × String))
app_sidebar pathname = map (nav_item pathname) nav_items

abbrev drop_empty : List String → List String
drop_empty [] = []
drop_empty (part ∷ parts) =
    let rest = drop_empty parts in if is_empty part then rest else part ∷ rest

-- `first_upper` is `part[0]!.toUpperCase()`.
abbrev initials_of : (String → String) → Option String → String
initials_of first_upper none = "?"
initials_of first_upper (some name) =
    join "" (map first_upper (take 2 (drop_empty (split b' ' name))))

unfoldable pub initials : (String → String) → Option String → String
unfolding split join
initials first_upper name = initials_of first_upper (truthy name)

-- `handleLogout`: the state behind it, and the page that the router is sent to.
unfoldable pub handle_logout : ApiResult String → AuthState → AuthState × String
unfolding logout
handle_logout answer auth = (logout answer auth, "/login")

abbrev name_of : Option MeResponse → Option String
name_of none = none
name_of (some me) = me.full_name

abbrev email_of : Option MeResponse → Option String
email_of none = none
email_of (some me) = me.email

pub data MenuAction : Type 0 where
  logs_out : MenuAction
  sets_theme : String → MenuAction

unfoldable pub user_menu : (String → String) → Option MeResponse → List (Control MenuAction)
unfolding initials
user_menu first_upper user =
    text (initials first_upper (name_of user))
    ∷ text (or_else (name_of user) "")
    ∷ text (or_else (email_of user) "")
    ∷ button "Log out" false logs_out
    ∷ []

unfoldable pub theme_toggle : List (Control MenuAction)
theme_toggle =
    button "Light" false (sets_theme "light")
    ∷ button "Dark" false (sets_theme "dark")
    ∷ button "System" false (sets_theme "system")
    ∷ []

-- The page of an error: its button resets it.
unfoldable pub app_error : String → List (Control (Unit {0}))
app_error message =
    text "Something went wrong"
    ∷ text (
        if is_empty message
        then "This screen hit an error, but your session is still fine."
        else message)
    ∷ button "Try again" false tt
    ∷ []

unfoldable pub global_error : String → List (Control (Unit {0}))
global_error message =
    text "Something went wrong"
    ∷ text (if is_empty message then "An unexpected error occurred." else message)
    ∷ button "Try again" false tt
    ∷ []

unfoldable pub not_found : List (Control (Unit {0}))
not_found =
    text "Page not found"
    ∷ text "The page you're looking for doesn't exist."
    ∷ link "Back home" "/"
    ∷ []

-- A transaction that the server sends.
pub record TransactionNotification : Type 0 where
  pub account_id : String
  pub entry : StatementEntryResponse

-- What the hook does with one: a toast with its description, an announcement, and the queries whose data
-- are fetched again.
pub record Reaction : Type 0 where
  pub toast : String
  pub description : String
  pub announcement : String
  pub invalidated : List (List String)

unfoldable pub react : (String → String → Option String) → TransactionNotification → Reaction
unfolding format_money
react intl notification =
    let label = or_else (truthy notification.entry.description) "New transaction" in
    let amount_label = format_money intl notification.entry.amount in
    record {
      toast = label;
      description = amount_label;
      announcement = label +++ ", " +++ amount_label;
      invalidated =
          ("bff-dashboard" ∷ []) ∷ ("accounts" ∷ notification.account_id ∷ "statement" ∷ []) ∷ [];
    }

abbrev react_if_any :
    (String → String → Option String) → Option TransactionNotification → Option Reaction
react_if_any intl none = none
react_if_any intl (some notification) = some (react intl notification)

-- The listener of the event source: nothing for a text that is no JSON.
unfoldable pub handle_transaction :
    (String → String → Option String)
    → (String → Option TransactionNotification)
    → String
    → Option Reaction
unfolding react
handle_transaction intl json data_text = react_if_any intl (json data_text)
