-- ===== src/Bff/Http.antt =====
-- The values that the controllers and services exchange: problem documents and exceptions
-- (bff/src/common/problem-detail.ts, upstream-http-exception.ts), requests to the backend and its
-- replies (axios), and the browser's request and response (express).
use fernbank.Base.{ℕ, List, String, Option, none, some, Bool, or_else}
use fernbank.Base.Dict.{Dict}
use fernbank.Base.Int.{ℤ}
use fernbank.Base.Text.{◌+++◌}

pub record ProblemDetailBody : Type 0 where
  pub type : Option String
  pub title : Option String
  pub status : Option ℕ
  pub detail : Option String
  pub instance_uri : Option String
  pub correlation_id : Option String
  pub errors : Option (List String)

abbrev pub problem_type_base : String
problem_type_base = "https://fernbank.dev/problems/"

-- `{ type: PROBLEM_TYPE_BASE + kind, title }`.
abbrev pub problem : String → String → ProblemDetailBody
problem kind title = record {
  type = some (problem_type_base +++ kind);
  title = some title;
  status = none;
  detail = none;
  instance_uri = none;
  correlation_id = none;
  errors = none;
}

-- `{ title }`.
abbrev pub titled : String → ProblemDetailBody
titled title = record {
  type = none;
  title = some title;
  status = none;
  detail = none;
  instance_uri = none;
  correlation_id = none;
  errors = none;
}

-- What `HttpException.getResponse` gives: an object, or a text.
pub data ExceptionResponse : Type 0 where
  object : ProblemDetailBody → ExceptionResponse
  text : String → ExceptionResponse

-- `upstream` and `http` are HttpExceptions; `plain` is any other error, with its message.
pub data Exception : Type 0 where
  upstream : ℕ → ProblemDetailBody → Exception
  http : ℕ → ExceptionResponse → Exception
  plain : String → Exception

-- `{ status, ...body }`.
abbrev pub with_status : ℕ → ProblemDetailBody → ProblemDetailBody
with_status status body = record body { status = some (or_else body.status status) }

-- The constructor of UpstreamHttpException.
unfoldable pub upstream_http_exception : ℕ → Option ProblemDetailBody → Exception
upstream_http_exception status body =
    upstream status (with_status status (or_else body (titled "Upstream error")))

pub data Result (A : Type 0) : Type 0 where
  ok : A → Result A
  throws : Exception → Result A

-- A JSON object: its keys with the text of each value.
pub record HttpRequest : Type 0 where
  pub method : String
  pub url : String
  pub query : Option (Dict String)
  pub body : Option (Dict String)
  pub headers : Dict String

-- A header that axios gives is a text or something else, such as a list of texts.
pub data HeaderValue : Type 0 where
  one : String → HeaderValue
  many : List String → HeaderValue

-- `body` holds the bytes of the reply.
pub record HttpReply : Type 0 where
  pub status : ℕ
  pub headers : Dict HeaderValue
  pub body : String

pub record SessionPayload : Type 0 where
  pub session_id : String
  pub refresh_token : String

-- `fernbank_session` is what the session middleware adds.
pub record Request : Type 0 where
  pub method : String
  pub path : String
  pub headers : Dict HeaderValue
  pub cookies : Dict String
  pub query : Dict String
  pub body : Option (Dict String)
  pub ip : Option String
  pub fernbank_session : Option SessionPayload

pub record CookieOptions : Type 0 where
  pub http_only : Bool
  pub secure : Bool
  pub same_site : String
  pub path : String
  pub domain : Option String
  pub max_age : ℕ

pub data CookieWrite : Type 0 where
  sets : String → String → CookieOptions → CookieWrite
  clears : String → CookieOptions → CookieWrite

-- `cookie_writes` has the newest first.
pub record Response : Type 0 where
  pub status : ℕ
  pub headers : Dict String
  pub cookie_writes : List CookieWrite
  pub headers_sent : Bool
  pub body : Option String

pub record CacheEntry : Type 0 where
  pub access_token : String
  pub refresh_token : String
  pub expires_at : ℤ

pub record TokenPair : Type 0 where
  pub access_token : String
  pub refresh_token : String

pub record JwtClaims : Type 0 where
  pub exp : Option ℤ
