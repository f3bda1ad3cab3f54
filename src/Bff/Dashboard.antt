-- ===== src/Bff/Dashboard.antt =====
-- bff/src/dashboard: dashboard.types.ts, dashboard.service.ts and dashboard.controller.ts. The
-- statements are asked for at once in the source and one behind the other here; what their calls do to
-- the shared state in between is the environment's.
pub mod Degraded
use fernbank.Base.{ℕ, Bool, true, false, List, [], ◌∷◌, String, Option, none, some, or_else}
use fernbank.Base.Int.{ℤ}
use fernbank.Base.Dict.{Dict}
use fernbank.Base.Text.{◌+++◌}
use fernbank.Bff.Http.{Request, Result, ok, throws, Exception, plain, SessionPayload}
use fernbank.Bff.World.{Env, World, M, ◌>>=◌, pure, throw, shared}
use fernbank.Bff.BackendClient.{AuthenticatedRequestOptions, request_json}
use fernbank.Bff.Session.{require_session}
use fernbank.Bff.Common.{extract_correlation_id}

pub record MoneyDto : Type 0 where
  pub amount : Option String
  pub currency : Option String

pub record MeResponse : Type 0 where
  pub user_id : Option String
  pub customer_id : Option String
  pub email : Option String
  pub full_name : Option String

pub record AccountResponse : Type 0 where
  pub id : Option String
  pub account_number : Option String
  pub type : Option String
  pub status : Option String
  pub balance : Option MoneyDto
  pub created_at : Option String

pub record StatementEntryResponse : Type 0 where
  pub id : Option String
  pub transaction_id : Option String
  pub created_at : Option String
  pub amount : Option MoneyDto
  pub description : Option String

pub record CursorPage : Type 0 where
  pub entries : Option (List StatementEntryResponse)
  pub next_cursor : Option String
  pub has_next : Option Bool

pub record RecentStatement : Type 0 where
  pub entries : List StatementEntryResponse
  pub degraded : Bool

pub record DashboardAccount : Type 0 where
  pub account : AccountResponse
  pub recent_statement : RecentStatement

pub record DashboardResponse : Type 0 where
  pub me : Option MeResponse
  pub accounts : List DashboardAccount

-- How the backend's replies are read, none where `JSON.parse` throws, and the text of a time that lies
-- some days back.
pub record DashboardCodec : Type 0 where
  pub me : String → Option MeResponse
  pub accounts : String → Option (List AccountResponse)
  pub page : String → Option CursorPage
  pub days_before : ℤ → ℕ → String

abbrev statement_window_days : ℕ
statement_window_days = 30

-- `GET` on behalf of a session.
abbrev pub get_options :
    SessionPayload → String → Option (Dict String) → Option String → AuthenticatedRequestOptions
get_options session path query correlation_id = record {
  session = session;
  method = "GET";
  path = path;
  query = query;
  body = none;
  extra_headers = [];
  correlation_id = correlation_id;
}

-- An undefined id is printed as such.
abbrev pub statement_path : Option String → String
statement_path id = "/api/v1/accounts/" +++ or_else id "undefined" +++ "/statement"

-- A step whose error is a value, as in `Promise.allSettled`.
abbrev pub settled_of : {A : Type 0} → Result A × World → Result (Result A) × World
settled_of (r, w) = (ok r, w)

abbrev pub settled : {A : Type 0} → M A → M (Result A)
settled m w = settled_of (m w)

-- The call for an account's statement.
unfoldable pub statement_call :
    Env
    → DashboardCodec
    → SessionPayload
    → String
    → String
    → AccountResponse
    → M (Option CursorPage)
statement_call env codec session from correlation_id account = request_json env codec.page (
    get_options session (statement_path account.id)
      (some (("from", from) ∷ ("pageSize", "50") ∷ [])) (some correlation_id))

unfoldable pub settle_statements :
    Env
    → DashboardCodec
    → SessionPayload
    → String
    → String
    → List AccountResponse
    → M (List (Result (Option CursorPage)))
settle_statements env codec session from correlation_id [] = pure []
settle_statements env codec session from correlation_id (account ∷ rest) = do
  result ← settled (statement_call env codec session from correlation_id account)
  results ← settle_statements env codec session from correlation_id rest
  pure (result ∷ results)

abbrev pub with_entries : AccountResponse → List StatementEntryResponse → Bool → DashboardAccount
with_entries account entries degraded = record {
  account = account;
  recent_statement = record { entries = entries; degraded = degraded };
}

-- One account with its statement; reading a field of undefined throws.
unfoldable pub dashboard_account :
    AccountResponse → Result (Option CursorPage) → Result DashboardAccount
dashboard_account account (ok none) = throws (plain "Cannot read properties of undefined")
dashboard_account account (ok (some page)) =
    ok (with_entries account (or_else page.entries []) false)
dashboard_account account (throws e) = ok (with_entries account [] true)

abbrev onto :
    Result DashboardAccount → Result (List DashboardAccount) → Result (List DashboardAccount)
onto (throws e) rest = throws e
onto (ok a) (throws e) = throws e
onto (ok a) (ok rest) = ok (a ∷ rest)

-- `accounts.map((account, index) => …)` over both lists.
unfoldable pub dashboard_accounts :
    List AccountResponse → List (Result (Option CursorPage)) → Result (List DashboardAccount)
unfolding dashboard_account
dashboard_accounts [] results = ok []
dashboard_accounts (account ∷ accounts) [] = throws (plain "Cannot read properties of undefined")
dashboard_accounts (account ∷ accounts) (result ∷ results) =
    onto (dashboard_account account result) (dashboard_accounts accounts results)

abbrev lifted : {A : Type 0} → Result A → M A
lifted r w = (r, w)

-- The handler behind the list of accounts, which throws where that is undefined.
unfoldable pub add_statements :
    Env
    → DashboardCodec
    → SessionPayload
    → String
    → Option MeResponse
    → Option (List AccountResponse)
    → M DashboardResponse
unfolding settle_statements dashboard_accounts
add_statements env codec session correlation_id me none =
    throw (plain "Cannot read properties of undefined")
add_statements env codec session correlation_id me (some accounts) = do
  s ← shared
  results ←
      settle_statements env codec session (codec.days_before s.now statement_window_days)
        correlation_id accounts
  with_statements ← lifted (dashboard_accounts accounts results)
  pure (record { me = me; accounts = with_statements })

unfoldable pub get_dashboard : Env → DashboardCodec → SessionPayload → String → M DashboardResponse
unfolding add_statements
get_dashboard env codec session correlation_id = do
  me ← request_json env codec.me (get_options session "/api/v1/me" none (some correlation_id))
  accounts ←
      request_json env codec.accounts
        (get_options session "/api/v1/accounts" none (some correlation_id))
  add_statements env codec session correlation_id me accounts

-- The controller's handler.
unfoldable pub handle_dashboard : Env → DashboardCodec → Request → M DashboardResponse
unfolding get_dashboard
handle_dashboard env codec req = do
  session ← require_session req
  correlation_id ← extract_correlation_id env req
  get_dashboard env codec session correlation_id
