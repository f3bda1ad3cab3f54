-- ===== src/Web/Api.antt =====
-- frontend/src/lib/api/client.ts and errors.ts, and frontend/src/lib/auth/csrf.ts: how the pages call
-- the server. What the browser provides is a record of functions.
pub mod Token
use Prim.Native.Char.{code}
use Prim.Native.String
use fernbank.Base.{
  ℕ, ◌≡◌, refl, Bool, true, false, not, ◌&&◌, List, [], ◌∷◌, String, Option, none, some, or_else,
  ltb, eqb, ◌==◌, if◌then◌else◌,
}
use fernbank.Base.Dict.{Dict, insert}
use fernbank.Base.Text.{◌+++◌, onto_head, strip_prefix, truthy}

pub record ProblemDetailBody : Type 0 where
  pub type : Option String
  pub title : Option String
  pub status : Option ℕ
  pub detail : Option String
  pub instance_uri : Option String
  pub correlation_id : Option String
  pub errors : Option (List String)

pub record ApiError : Type 0 where
  pub message : String
  pub status : ℕ
  pub type : Option String
  pub title : Option String
  pub detail : Option String
  pub correlation_id : Option String
  pub field_errors : List String

pub record FetchRequest : Type 0 where
  pub url : String
  pub method : String
  pub headers : Dict String
  pub body : Option String

pub record FetchReply : Type 0 where
  pub status : ℕ
  pub body : String

-- `cookie` is `document.cookie`, none where there is no document; `url` is `new URL` on the server's
-- base with search parameters set; `parse_problem` is none where `response.json()` throws.
pub record Browser : Type 0 where
  pub cookie : Option String
  pub correlation_id : String
  pub idempotency_key : String
  pub url : String → Dict String → String
  pub encode_uri_component : String → String
  pub upper_case : String → String
  pub show_status : ℕ → String
  pub parse_problem : String → Option ProblemDetailBody

-- `a ?? b ?? c`.
abbrev message_of : Option String → Option String → String → String
message_of detail title otherwise = or_else detail (or_else title otherwise)

-- The constructor of ApiError.
unfoldable pub api_error : Browser → ℕ → Option ProblemDetailBody → ApiError
api_error b status none = record {
  message = "Request failed with status " +++ b.show_status status;
  status = status;
  type = none;
  title = none;
  detail = none;
  correlation_id = none;
  field_errors = [];
}
api_error b status (some body) = record {
  message =
      message_of body.detail body.title ("Request failed with status " +++ b.show_status status);
  status = status;
  type = body.type;
  title = body.title;
  detail = body.detail;
  correlation_id = body.correlation_id;
  field_errors = or_else body.errors [];
}

unfoldable pub from_response : Browser → FetchReply → ApiError
unfolding api_error
from_response b reply = api_error b reply.status (b.parse_problem reply.body)

abbrev pub csrf_cookie_prefix : String
csrf_cookie_prefix = "fernbank_bff_csrf="

abbrev pub csrf_header_name : String
csrf_header_name = "X-CSRF-Token"

-- `document.cookie.split('; ')`.
unfoldable pub split_cookies : String → List String
split_cookies String.[] = String.[] ∷ []
split_cookies (String.◌∷◌ c String.[]) = String.◌∷◌ c String.[] ∷ []
split_cookies (String.◌∷◌ c (String.◌∷◌ d s)) =
    let behind = split_cookies s in
    let rest = split_cookies (String.◌∷◌ d s) in
    if eqb (code c) b';' && eqb (code d) b' ' then String.[] ∷ behind else onto_head c rest

-- What stands behind the prefix in the first entry that starts with it.
unfoldable pub find_entry : String → List String → Option String
unfolding strip_prefix
find_entry prefix [] = none
find_entry prefix (entry ∷ entries) =
    let later = find_entry prefix entries in
    elim (strip_prefix prefix entry) [ none ↦ later | some value ↦ some value ]

unfoldable pub read_csrf_token : Option String → Option String
unfolding split_cookies find_entry
read_csrf_token none = none
read_csrf_token (some cookie) = find_entry csrf_cookie_prefix (split_cookies cookie)

abbrev pub put : String → Option String → Dict String → Dict String
put name none headers = headers
put name (some value) headers = insert name value headers

abbrev pub content_type_of : Option String → Option String
content_type_of none = none
content_type_of (some body) = some "application/json"

-- The headers that a method other than get adds.
abbrev pub write_headers : Browser → Dict String → Dict String
write_headers b headers =
    put csrf_header_name (truthy (read_csrf_token b.cookie))
      (insert "Idempotency-Key" b.idempotency_key headers)

unfoldable pub request_headers : Browser → String → Option String → Dict String
unfolding read_csrf_token
request_headers b method body =
    let base = ("X-Correlation-Id", b.correlation_id) ∷ [] in
    put "Content-Type" (content_type_of body)
      (if method == "get" then base else write_headers b base)

-- `resolvedPath.replace(…)` replaces the first occurrence of the placeholder.
unfoldable pub replace_first : String → String → String → String
unfolding strip_prefix
replace_first placeholder value String.[] = String.[]
replace_first placeholder value (String.◌∷◌ c s) =
    let later = replace_first placeholder value s in
    elim (strip_prefix placeholder (String.◌∷◌ c s)) [
      | none ↦ String.◌∷◌ c later
      | some rest ↦ value +++ rest
    ]

unfoldable pub resolve_path : Browser → Dict String → String → String
unfolding replace_first
resolve_path b [] path = path
resolve_path b ((key, value) ∷ params) path =
    resolve_path b params (replace_first ("{" +++ key +++ "}") (b.encode_uri_component value) path)

unfoldable pub build_url : Browser → String → Dict String → Dict String → String
unfolding resolve_path
build_url b path path_params query_params = b.url (resolve_path b path_params path) query_params

-- A body is the text that `JSON.stringify` makes of it.
unfoldable pub api_request :
    Browser → String → String → Dict String → Dict String → Option String → FetchRequest
unfolding build_url request_headers
api_request b method path path_params query_params body = record {
  url = build_url b path path_params query_params;
  method = b.upper_case method;
  headers = request_headers b method body;
  body = body;
}

-- `rejects` stands for an error of `fetch` or of `response.json()`; none for undefined.
pub data ApiResult (A : Type 0) : Type 0 where
  returns : Option A → ApiResult A
  throws : ApiError → ApiResult A
  rejects : ApiResult A

abbrev of_json : {A : Type 0} → Option A → ApiResult A
of_json none = rejects
of_json (some a) = returns (some a)

-- `apiFetch` behind its await.
unfoldable pub read_response :
    {A : Type 0} → Browser → (String → Option A) → Option FetchReply → ApiResult A
unfolding from_response
read_response b json none = rejects
read_response b json (some reply) =
    if not (ltb 199 reply.status && ltb reply.status 300)
    then throws (from_response b reply)
    else if eqb reply.status 204
    then returns none
    else of_json (json reply.body)

unfoldable pub api_fetch :
    {A : Type 0}
    → Browser
    → (FetchRequest → Option FetchReply)
    → (String → Option A)
    → String
    → String
    → Dict String
    → Dict String
    → Option String
    → ApiResult A
unfolding api_request read_response
api_fetch b fetch json method path path_params query_params body =
    read_response b json (fetch (api_request b method path path_params query_params body))
