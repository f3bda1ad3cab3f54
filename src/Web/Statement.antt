-- ===== src/Web/Statement.antt =====
-- frontend/src/app/(app)/accounts/[accountId]/page.tsx: the statement of an account. What the query
-- library and the list of visible rows give the page are arguments.
pub mod Pages
pub mod Loading
use fernbank.Base.{
  ℕ, suc, ◌+◌, ◌-◌, ◌≡◌, refl, Bool, true, false, not, ◌&&◌, ◌||◌, List, [], ◌∷◌, ◌++◌, String,
  Option, none, some, or_else, length, leb, if◌then◌else◌,
}
use fernbank.Base.Dict.{Dict}
use fernbank.Base.Text.{◌+++◌, is_empty, trim, truthy}
use fernbank.Bff.Dashboard.{AccountResponse, StatementEntryResponse}
use fernbank.Web.Api.{put, ApiResult, returns, throws, rejects}
use fernbank.Web.Queries.{Page, StatementFilters, get_next_page_param}
use fernbank.Web.View.{error_message}

-- `new URLSearchParams` as a text, `toLowerCase`, `includes`.
pub record Platform : Type 0 where
  pub search_params : Dict String → String
  pub lower_case : String → String
  pub includes : String → String → Bool
  pub intl : String → String → Option String
  pub local_time : String → String

abbrev pub StatementPage : Type 0
StatementPage = Page StatementEntryResponse

-- What the hook `useStatement` gives the page.
pub record StatementQuery : Type 0 where
  pub pages : Option (List StatementPage)
  pub is_pending : Bool
  pub has_next_page : Bool
  pub is_fetching_next_page : Bool

abbrev bound : String → String → Option String
bound date time = if is_empty date then none else some (date +++ time)

unfoldable pub filters : String → String → StatementFilters
filters from_date to_date = record {
  from = bound from_date "T00:00:00Z";
  to = bound to_date "T23:59:59Z";
}

unfoldable pub flat_map : List StatementPage → List StatementEntryResponse
flat_map [] = []
flat_map (page ∷ pages) = or_else page.data_in [] ++ flat_map pages

unfoldable pub all_entries : StatementQuery → List StatementEntryResponse
unfolding flat_map
all_entries query = flat_map (or_else query.pages [])

abbrev pub is_match : Platform → String → StatementEntryResponse → Bool
is_match env needle entry = env.includes (env.lower_case (or_else entry.description "")) needle

unfoldable pub filter_entries :
    (StatementEntryResponse → Bool) → List StatementEntryResponse → List StatementEntryResponse
filter_entries keeps [] = []
filter_entries keeps (e ∷ entries) =
    let rest = filter_entries keeps entries in if keeps e then e ∷ rest else rest

-- The entries that match what is sought, all of them if that is blank.
unfoldable pub matching :
    Platform → String → List StatementEntryResponse → List StatementEntryResponse
unfolding filter_entries trim
matching env sought loaded =
    if is_empty (trim sought)
    then loaded
    else filter_entries (is_match env (env.lower_case (trim sought))) loaded

unfoldable pub entries : Platform → StatementQuery → String → List StatementEntryResponse
unfolding all_entries matching
entries env query sought = matching env sought (all_entries query)

-- The rows of the list: one more than the entries while there is a next page.
unfoldable pub count : Bool → ℕ → ℕ
count has_next_page n = if has_next_page then n + 1 else n

-- Whether the effect asks for the next page; `last_item` is the index of the last visible row. The index
-- is at least `n - 1` exactly if its successor is at least `n`.
unfoldable pub fetches_next_page : Option ℕ → ℕ → StatementQuery → Bool
fetches_next_page none n query = false
fetches_next_page (some last_item) n query =
    leb n (suc last_item) && (query.has_next_page && not query.is_fetching_next_page)

-- What `handleExport` downloads: the path and the file name.
unfoldable pub export_request :
    Platform → String → String → StatementFilters → String → String × String
export_request env account_id account_number period format = (
  "/api/v1/accounts/"
      +++ account_id
      +++ "/statement/export?"
      +++ env.search_params
          (put "to" (truthy period.to) (put "from" (truthy period.from) (("format", format) ∷ []))),
  "statement-" +++ account_number +++ "." +++ format,
)

abbrev number_of : Option AccountResponse → Option String
number_of none = none
number_of (some account) = truthy account.account_number

-- Nothing, as long as the account's number is not there.
unfoldable pub handle_export :
    Platform
    → String
    → Option AccountResponse
    → StatementFilters
    → String
    → Option (String × String)
unfolding export_request
handle_export env account_id account period format = elim (number_of account) [
  | none ↦ none
  | some account_number ↦ some (export_request env account_id account_number period format)
]

-- The message behind a download, if it failed.
unfoldable pub export_message : {A : Type 0} → ApiResult A → Option String
unfolding error_message
export_message (returns result) = none
export_message (throws error) = some (error_message "Export failed" (some error))
export_message rejects = some (error_message "Export failed" none)
