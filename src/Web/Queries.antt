-- ===== src/Web/Queries.antt =====
-- frontend/src/hooks/queries and hooks/mutations: the call of each hook, and what decides whether and
-- how it is made. The query library runs the calls; a body is the text that `JSON.stringify` makes.
use fernbank.Base.{Bool, true, false, not, List, [], ◌∷◌, String, Option, none, some}
use fernbank.Base.Dict.{Dict}
use fernbank.Base.Text.{is_empty}
use fernbank.Web.Api.{Browser, FetchRequest, api_request}
use fernbank.Web.Forms.{TransferInput}

-- The arguments of `apiFetch`.
pub record ApiCall : Type 0 where
  pub method : String
  pub path : String
  pub path_params : Dict String
  pub query_params : Dict String
  pub body : Option String

abbrev pub plain : String → String → ApiCall
plain method path = record {
  method = method;
  path = path;
  path_params = [];
  query_params = [];
  body = none;
}

-- The request of a call.
abbrev pub request_of : Browser → ApiCall → FetchRequest
request_of b call = api_request b call.method call.path call.path_params call.query_params call.body

pub record Query : Type 0 where
  pub query_key : List String
  pub call : ApiCall
  pub enabled : Bool

unfoldable pub use_accounts : Query
use_accounts = record {
  query_key = "accounts" ∷ [];
  call = plain "get" "/api/v1/accounts";
  enabled = true;
}

unfoldable pub use_account : String → Query
use_account account_id = record {
  query_key = "accounts" ∷ account_id ∷ [];
  call = record (plain "get" "/api/v1/accounts/{accountId}") {
    path_params = ("accountId", account_id) ∷ [];
  };
  enabled = not (is_empty account_id);
}

unfoldable pub use_payees : Query
use_payees = record {
  query_key = "payees" ∷ [];
  call = plain "get" "/api/v1/payees";
  enabled = true;
}

unfoldable pub use_sessions : Query
use_sessions = record {
  query_key = "sessions" ∷ [];
  call = plain "get" "/api/v1/me/sessions";
  enabled = true;
}

-- A search parameter that is undefined is left out.
abbrev pub param : String → Option String → Dict String → Dict String
param name none params = params
param name (some value) params = (name, value) ∷ params

unfoldable pub login_history_call : Option String → ApiCall
login_history_call page_param = record (plain "get" "/api/v1/me/login-history") {
  query_params = param "cursor" page_param (("pageSize", "20") ∷ []);
}

pub record StatementFilters : Type 0 where
  pub from : Option String
  pub to : Option String

unfoldable pub statement_call : String → StatementFilters → Option String → ApiCall
statement_call account_id filters page_param =
    record (plain "get" "/api/v1/accounts/{accountId}/statement") {
      path_params = ("accountId", account_id) ∷ [];
      query_params =
          param "from" filters.from
            (param "to" filters.to (param "cursor" page_param (("pageSize", "50") ∷ [])));
    }

pub record Page (A : Type 0) : Type 0 where
  pub data_in : Option (List A)
  pub next_cursor : Option String
  pub has_next : Option Bool

-- `lastPage.hasNext ? lastPage.nextCursor : undefined`.
unfoldable pub get_next_page_param : {A : Type 0} → Page A → Option String
get_next_page_param last_page = elim last_page.has_next [
  | none ↦ none
  | some has_next ↦ elim has_next [ false ↦ none | true ↦ last_page.next_cursor ]
]

abbrev post : String → String → ApiCall
post path body = record (plain "post" path) { body = some body }

-- The mutations; `stringify` is `JSON.stringify` of the fields with their values.
module _ (stringify : Dict String → String) where
  unfoldable pub use_add_payee : String → String → ApiCall
  use_add_payee name target_account_number =
      post "/api/v1/payees"
        (stringify (("name", name) ∷ ("targetAccountNumber", target_account_number) ∷ []))

  unfoldable pub use_change_password : String → String → ApiCall
  use_change_password current_password new_password =
      post "/api/v1/me/password"
        (stringify (("currentPassword", current_password) ∷ ("newPassword", new_password) ∷ []))

  unfoldable pub use_mfa_enroll_confirm : String → ApiCall
  use_mfa_enroll_confirm code =
      post "/api/v1/auth/mfa/enroll/confirm" (stringify (("code", code) ∷ []))

  unfoldable pub use_step_up : String → ApiCall
  use_step_up code = post "/api/v1/auth/step-up" (stringify (("code", code) ∷ []))

unfoldable pub use_mfa_enroll : ApiCall
use_mfa_enroll = plain "post" "/api/v1/auth/mfa/enroll"

unfoldable pub use_transfer : (TransferInput → String) → TransferInput → ApiCall
use_transfer stringify body = post "/api/v1/transfers" (stringify body)

unfoldable pub use_delete_payee : String → ApiCall
use_delete_payee payee_id = record (plain "delete" "/api/v1/payees/{payeeId}") {
  path_params = ("payeeId", payee_id) ∷ [];
}

unfoldable pub use_revoke_session : String → ApiCall
use_revoke_session session_id = record (plain "delete" "/api/v1/me/sessions/{sessionId}") {
  path_params = ("sessionId", session_id) ∷ [];
}
