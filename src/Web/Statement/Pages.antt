-- ===== src/Web/Statement/Pages.antt =====
-- What frontend/src/app/(app)/accounts/[accountId]/page.tsx shows.
use fernbank.Base.{
  ℕ, Bool, false, ◌||◌, List, [], ◌∷◌, ◌++◌, String, Option, none, some, or_else, length, get_elem?,
  not, ◌==◌, if◌then◌else◌,
}
use fernbank.Base.Text.{◌+++◌, is_empty, truthy}
use fernbank.Bff.Dashboard.{AccountResponse, StatementEntryResponse}
use fernbank.Web.Format.{format_money, is_debit}
use fernbank.Web.View.{Control, text, placeholder, button, input}
use fernbank.Web.Statement.{Platform, StatementQuery, entries, count}

pub data Action : Type 0 where
  sets_from : String → Action
  sets_to : String → Action
  searches : String → Action
  exports : String → Action

abbrev shown : Option String → String
shown s = or_else s ""

abbrev status_of : Option String → String
status_of none = "Active"
status_of (some status) = if status == "FROZEN" then "Frozen" else "Active"

-- The outer option is that of a query that is pending, the inner one that of its data.
unfoldable pub heading : Platform → Option (Option AccountResponse) → List (Control Action)
unfolding format_money
heading env none = placeholder ∷ []
heading env (some none) =
    text " · " ∷ text (format_money env.intl none +++ " · " +++ status_of none) ∷ []
heading env (some (some account)) =
    text (shown account.type +++ " · " +++ shown account.account_number)
    ∷ text (format_money env.intl account.balance +++ " · " +++ status_of account.status)
    ∷ []

unfoldable pub filter_bar : String → String → String → List (Control Action)
filter_bar from_date to_date sought =
    text "Transactions"
    ∷ input "From" from_date sets_from
    ∷ input "To" to_date sets_to
    ∷ input "Search" sought searches
    ∷ button "Export CSV" false (exports "csv")
    ∷ button "Export PDF" false (exports "pdf")
    ∷ (if is_empty sought
        then []
        else text
            "Search only covers transactions already loaded below — scroll to load more, or narrow the date range."
          ∷ [])

abbrev time_of : Platform → Option String → String
time_of env none = ""
time_of env (some time) = env.local_time time

-- A visible row, by its index; the one behind the entries is the one of the page that is to come.
unfoldable pub row : Platform → List StatementEntryResponse → ℕ → List (Control Action)
unfolding is_debit format_money
row env rows index = elim (get_elem? rows index) [
  | none ↦ text "Loading more…" ∷ []
  | some entry ↦
      text (if is_debit entry.amount then "↑" else "↓")
      ∷ text (or_else (truthy entry.description) "Transaction")
      ∷ text (time_of env (truthy entry.created_at))
      ∷ text (format_money env.intl entry.amount)
      ∷ []
]

abbrev row_list : Platform → List StatementEntryResponse → List ℕ → List (Control Action)
row_list env rows [] = []
row_list env rows (index ∷ indices) = row env rows index ++ row_list env rows indices

abbrev no_rows : Bool → List (Control Action)
no_rows is_filtered =
    text ("No transactions " +++ (if is_filtered then "match these filters" else "yet") +++ ".")
    ∷ []

-- `visible` is what the list of visible rows gives, which knows their count.
unfoldable pub rows_of :
    Platform → StatementQuery → String → String → String → (ℕ → List ℕ) → List (Control Action)
unfolding entries row count
rows_of env query from_date to_date sought visible =
    if query.is_pending
    then placeholder ∷ placeholder ∷ placeholder ∷ placeholder ∷ placeholder ∷ []
    else elim (entries env query sought) [
      | [] ↦ no_rows (not (is_empty sought) || (not (is_empty from_date) || not (is_empty to_date)))
      | e ∷ es ↦ row_list env (e ∷ es) (visible (count query.has_next_page (length (e ∷ es))))
    ]

unfoldable pub account_detail_page :
    Platform
    → Option (Option AccountResponse)
    → StatementQuery
    → String
    → String
    → String
    → (ℕ → List ℕ)
    → List (Control Action)
unfolding heading filter_bar rows_of
account_detail_page env account query from_date to_date sought visible =
    heading env account
    ++ (filter_bar from_date to_date sought ++ rows_of env query from_date to_date sought visible)
