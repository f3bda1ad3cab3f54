-- ===== src/Web/Home.antt =====
-- frontend/src/app/(app)/dashboard/page.tsx: what it works out of the dashboard, and what it shows. A
-- rendering that throws is none; the page of an error then stands in its place.
use fernbank.Base.{
  ℕ, Bool, true, false, not, ◌||◌, List, [], ◌∷◌, ◌++◌, String, Option, none, some, or_else, head?,
  ◌==◌, if◌then◌else◌,
}
use fernbank.Base.Dict.{Dict}
use fernbank.Base.Text.{◌+++◌, split, truthy}
use fernbank.Bff.Dashboard.{
  AccountResponse, DashboardAccount, DashboardResponse, StatementEntryResponse,
}
use fernbank.Web.Activity.{AccountEntries, ActivityEntry, merge_recent_activity}
use fernbank.Web.Format.{Numbers, daily_spend, format_money, is_debit}
use fernbank.Web.View.{Control, text, placeholder, link}

abbrev pub spend_window_days : ℕ
spend_window_days = 30

abbrev pub recent_activity_limit : ℕ
recent_activity_limit = 10

-- The locale's order of texts and its formats, and the days of `dailySpend`.
pub record Platform : Type 0 where
  pub at_most : String → String → Bool
  pub intl : String → String → Option String
  pub local_time : String → String
  pub day : ℕ → String

abbrev pub accounts_of : Option DashboardResponse → List DashboardAccount
accounts_of none = []
accounts_of (some dashboard) = dashboard.accounts

-- The accounts with an id that is not empty.
unfoldable pub entries_by_account : List DashboardAccount → List AccountEntries
entries_by_account [] = []
entries_by_account (a ∷ accounts) =
    let rest = entries_by_account accounts in
    elim (truthy a.account.id) [
      | none ↦ rest
      | some id ↦ record { account_id = id; entries = a.recent_statement.entries } ∷ rest
    ]

unfoldable pub flat_entries : List AccountEntries → List StatementEntryResponse
flat_entries [] = []
flat_entries (a ∷ accounts) = a.entries ++ flat_entries accounts

unfoldable pub recent_activity : Platform → Option DashboardResponse → List ActivityEntry
unfolding entries_by_account merge_recent_activity
recent_activity env dashboard =
    merge_recent_activity env.at_most (entries_by_account (accounts_of dashboard))
      recent_activity_limit

unfoldable pub has_degraded_account : List DashboardAccount → Bool
has_degraded_account [] = false
has_degraded_account (a ∷ accounts) = a.recent_statement.degraded || has_degraded_account accounts

module _ (n : Numbers) (is_positive : n.Number → Bool) where
  unfoldable pub spend_data : Platform → Option DashboardResponse → Dict n.Number
  unfolding entries_by_account flat_entries daily_spend
  spend_data env dashboard =
      daily_spend n env.day (flat_entries (entries_by_account (accounts_of dashboard)))
        spend_window_days

  unfoldable pub has_spend : Dict n.Number → Bool
  has_spend [] = false
  has_spend ((day, amount) ∷ days) = is_positive amount || has_spend days

-- The page has links only.
abbrev pub Shown : Type 0
Shown = Control (Unit {0})

abbrev shown : Option String → String
shown s = or_else s ""

abbrev first_name : Option String → String
first_name none = ""
first_name (some name) = or_else (head? (split b' ' name)) ""

-- `dashboard?.me.fullName` throws where there is a dashboard and no `me`.
unfoldable pub welcome : Bool → Option DashboardResponse → Option (List Shown)
unfolding split
welcome is_pending none =
    some ((if is_pending then placeholder else text "Welcome back, ") ∷ text "" ∷ [])
welcome is_pending (some dashboard) = elim dashboard.me [
  | none ↦ none
  | some me ↦ some (
      (if is_pending then placeholder else text ("Welcome back, " +++ first_name me.full_name))
      ∷ text (shown me.email)
      ∷ [])
]

abbrev status_of : Option String → String
status_of none = "Active"
status_of (some status) = if status == "FROZEN" then "Frozen" else "Active"

unfoldable pub account_card : Platform → AccountResponse → List Shown
unfolding format_money
account_card env account =
    text (shown account.type)
    ∷ text (shown account.account_number)
    ∷ text (format_money env.intl account.balance)
    ∷ text (status_of account.status)
    ∷ link "" ("/accounts/" +++ or_else account.id "undefined")
    ∷ []

unfoldable pub account_cards : Platform → List DashboardAccount → List Shown
unfolding account_card
account_cards env [] = []
account_cards env (a ∷ accounts) = account_card env a.account ++ account_cards env accounts

unfoldable pub account_section : Platform → Bool → List DashboardAccount → List Shown
unfolding account_cards
account_section env true accounts =
    text "Account" ∷ placeholder ∷ text "Account" ∷ placeholder ∷ text "Account" ∷ placeholder ∷ []
account_section env false [] =
    text "No accounts yet"
    ∷ text "Open an account with the API or Postman collection to start banking with fernbank."
    ∷ []
account_section env false (a ∷ accounts) = account_cards env (a ∷ accounts)

unfoldable pub degraded_notice : List DashboardAccount → List Shown
unfolding has_degraded_account
degraded_notice accounts =
    if has_degraded_account accounts
    then text
        "One account's recent activity couldn't be loaded just now — its balance above is still current, only its contribution to the chart and feed below is missing."
      ∷ []
    else []

-- The chart shows the days and their sums.
unfoldable pub spend_section : Bool → Bool → List Shown → List Shown
spend_section is_pending has_any chart =
    text "Spending, last 30 days"
    ∷ (if is_pending
        then placeholder ∷ []
        else if not has_any
        then text "No spending in the last 30 days." ∷ []
        else chart)

abbrev time_of : Platform → Option String → String
time_of env none = ""
time_of env (some time) = env.local_time time

unfoldable pub activity_row : Platform → ActivityEntry → List Shown
unfolding is_debit format_money
activity_row env a =
    text (if is_debit a.entry.amount then "↑" else "↓")
    ∷ text (or_else (truthy a.entry.description) "Transaction")
    ∷ text (time_of env (truthy a.entry.created_at))
    ∷ text (format_money env.intl a.entry.amount)
    ∷ []

unfoldable pub activity_rows : Platform → List ActivityEntry → List Shown
unfolding activity_row
activity_rows env [] = []
activity_rows env (a ∷ entries) = activity_row env a ++ activity_rows env entries

unfoldable pub activity_section : Platform → Bool → List ActivityEntry → List Shown
unfolding activity_rows
activity_section env true entries =
    text "Recent activity" ∷ placeholder ∷ placeholder ∷ placeholder ∷ []
activity_section env false [] = text "Recent activity" ∷ text "No recent transactions." ∷ []
activity_section env false (a ∷ entries) = text "Recent activity" ∷ activity_rows env (a ∷ entries)

abbrev under : List Shown → Option (List Shown) → Option (List Shown)
under rest none = none
under rest (some top) = some (top ++ rest)

-- `chart` is how the chart library shows the days.
unfoldable pub dashboard_page :
    (n : Numbers)
    → (n.Number → Bool)
    → (Dict n.Number → List Shown)
    → Platform
    → Bool
    → Option DashboardResponse
    → Option (List Shown)
unfolding welcome account_section degraded_notice spend_section spend_data has_spend
    activity_section recent_activity
dashboard_page n is_positive chart env is_pending dashboard =
    let days = spend_data n is_positive env dashboard in
    under
      (account_section env is_pending (accounts_of dashboard)
        ++ (degraded_notice (accounts_of dashboard)
            ++ (spend_section is_pending (has_spend n is_positive days) (chart days)
                ++ activity_section env is_pending (recent_activity env dashboard))))
      (welcome is_pending dashboard)
