-- ===== src/Bff/BackendClient.antt =====
-- bff/src/backend-client/backend-client.service.ts: requests to the backend with the session's
-- access token, and one retry behind a forced refresh when the backend answers 401.
pub mod Laws
pub mod Frames
use fernbank.Base.{
  ℕ, Bool, true, false, List, [], ◌∷◌, ◌++◌, String, Option, none, some, or_else, if◌then◌else◌,
  ltb, leb, eqb,
}
use fernbank.Base.Dict.{Dict, insert}
use fernbank.Base.Text.{◌+++◌, is_empty}
use fernbank.Bff.Http.{
  HttpRequest, HttpReply, HeaderValue, one, many, SessionPayload, Exception, plain, upstream, http,
  upstream_http_exception, problem, ProblemDetailBody,
}
use fernbank.Bff.World.{Env, M, ◌>>=◌, pure, throw, catch, draw, request}
use fernbank.Bff.TokenCache.{correlation_id_header, resolve_access_token, force_refresh}

pub record RawBackendResponse : Type 0 where
  pub status : ℕ
  pub headers : Dict String
  pub data_bytes : String

pub record AuthenticatedRequestOptions : Type 0 where
  pub session : SessionPayload
  pub method : String
  pub path : String
  pub query : Option (Dict String)
  pub body : Option (Dict String)
  pub extra_headers : Dict String
  pub correlation_id : Option String

unfoldable pub safe_parse_json : Env → String → Option ProblemDetailBody
safe_parse_json env buffer = if is_empty buffer then none else env.parse_problem buffer

-- Of each header, the value that is one text.
unfoldable pub normalize_headers : Dict HeaderValue → Dict String
normalize_headers [] = []
normalize_headers ((key, one value) ∷ rest) = (key, value) ∷ normalize_headers rest
normalize_headers ((key, many values) ∷ rest) = normalize_headers rest

-- `{ ...base, ...extra }`.
unfoldable pub spread : Dict String → Dict String → Dict String
spread base [] = base
spread base ((key, value) ∷ extra) = spread (insert key value base) extra

-- `options.correlationId ?? newCorrelationId()`.
unfoldable pub correlation_or_new : Env → Option String → M String
correlation_or_new env none = draw env.uuid
correlation_or_new env (some id) = pure id

abbrev pub content_type : Option (Dict String) → Dict String
content_type none = []
content_type (some body) = ("Content-Type", "application/json") ∷ []

unfoldable pub authenticated_request :
    Env → AuthenticatedRequestOptions → String → String → HttpRequest
unfolding spread
authenticated_request env options access_token correlation_id = record {
  method = options.method;
  url = env.config.backend_internal_base_url +++ options.path;
  query = options.query;
  body = options.body;
  headers =
      spread
        (("Authorization", "Bearer " +++ access_token)
          ∷ (correlation_id_header, correlation_id)
          ∷ content_type options.body)
        options.extra_headers;
}

abbrev pub bad_gateway : Exception
bad_gateway =
    upstream_http_exception 502 (some (problem "bad-gateway" "Could not reach the backend"))

-- The part of `doRequest` behind the await.
unfoldable pub read_reply : Env → Option HttpReply → M RawBackendResponse
unfolding safe_parse_json normalize_headers
read_reply env none = throw bad_gateway
read_reply env (some reply) =
    if leb 400 reply.status
    then throw (upstream_http_exception reply.status (safe_parse_json env reply.body))
    else pure (record {
      status = reply.status;
      headers = normalize_headers reply.headers;
      data_bytes = reply.body;
    })

unfoldable pub do_request : Env → AuthenticatedRequestOptions → String → M RawBackendResponse
unfolding correlation_or_new authenticated_request read_reply
do_request env options access_token = do
  correlation_id ← correlation_or_new env options.correlation_id
  reply ← request env (authenticated_request env options access_token correlation_id)
  read_reply env reply

-- `error instanceof UpstreamHttpException && error.getStatus() === 401`.
unfoldable pub is_unauthorized : Exception → Bool
is_unauthorized (upstream status body) = eqb status 401
is_unauthorized (http status response) = false
is_unauthorized (plain message) = false

-- The `catch` block of `requestRaw`.
unfoldable pub retry : Env → AuthenticatedRequestOptions → Exception → M RawBackendResponse
unfolding is_unauthorized
retry env options error =
    if is_unauthorized error
    then (do
      refreshed_token ← force_refresh env options.session.session_id options.session.refresh_token
      do_request env options refreshed_token)
    else throw error

unfoldable pub request_raw : Env → AuthenticatedRequestOptions → M RawBackendResponse
unfolding retry
request_raw env options = do
  access_token ← resolve_access_token env options.session.session_id options.session.refresh_token
  catch (do_request env options access_token) (retry env options)

-- `JSON.parse` of the bytes at the type T is an argument: none where it throws.
abbrev pub parsed : {T : Type 0} → (String → Option T) → String → M (Option T)
parsed parse bytes = if is_empty bytes then pure none else elim (parse bytes) [
  | none ↦ throw (plain "Unexpected JSON")
  | some value ↦ pure (some value)
]

-- None stands for undefined.
unfoldable pub request_json :
    {T : Type 0} → Env → (String → Option T) → AuthenticatedRequestOptions → M (Option T)
request_json env parse options = do raw ← request_raw env options; parsed parse raw.data_bytes
