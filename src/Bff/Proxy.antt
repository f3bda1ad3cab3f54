-- ===== src/Bff/Proxy.antt =====
-- bff/src/proxy: proxy-allowlist.ts and proxy.controller.ts, which hands the browser's requests for a
-- few resources on to the backend.
mod Frames
pub mod Forwarding
pub mod Routing
use fernbank.Base.{
  ℕ, Bool, true, false, not, ◌&&◌, ◌||◌, List, [], ◌∷◌, String, Option, none, some, or_else, head?,
  ◌==◌, if◌then◌else◌,
}
use fernbank.Base.Dict.{Dict, lookup, insert}
use fernbank.Base.Text.{◌+++◌, split, join, strip_prefix, truthy}
use fernbank.Bff.Http.{HeaderValue, one, many, Request, Response, http, object, problem}
use fernbank.Bff.World.{Env, M, ◌>>=◌, ◌>>◌, pure, throw, respond}
use fernbank.Bff.BackendClient.{AuthenticatedRequestOptions, RawBackendResponse, request_raw}
use fernbank.Bff.Session.{require_session}
use fernbank.Bff.Common.{extract_correlation_id}

abbrev pub allowed_proxy_resources : List String
allowed_proxy_resources = "accounts" ∷ "payees" ∷ "transfers" ∷ "me" ∷ []

unfoldable pub contains : String → List String → Bool
contains s [] = false
contains s (t ∷ ts) = t == s || contains s ts

abbrev pub forwarded_headers : List String
forwarded_headers = "idempotency-key" ∷ []

-- `path.replace(/^\/api\/v1\//, '').split('/')[0]`.
unfoldable pub resource_from_path : String → String
unfolding strip_prefix split
resource_from_path path =
    or_else (head? (split b'/' (or_else (strip_prefix "/api/v1/" path) path))) ""

abbrev pub keep_text : String → Option HeaderValue → Dict String → Dict String
keep_text name none kept = kept
keep_text name (some (one value)) kept = insert name value kept
keep_text name (some (many values)) kept = kept

-- The loop over FORWARDED_HEADERS.
unfoldable pub extra_headers : Dict HeaderValue → List String → Dict String → Dict String
extra_headers headers [] kept = kept
extra_headers headers (name ∷ names) kept =
    extra_headers headers names (keep_text name (lookup name headers) kept)

abbrev pub body_with_keys : Option (Dict String) → Option (Dict String)
body_with_keys none = none
body_with_keys (some []) = none
body_with_keys (some (b ∷ bs)) = some (b ∷ bs)

-- `hasBody ? req.body : undefined`.
unfoldable pub forwarded_body : Request → Option (Dict String)
forwarded_body req =
    if req.method == "GET" || req.method == "HEAD" then none else body_with_keys req.body

abbrev pub put_header : String → Option String → Response → Response
put_header name none res = res
put_header name (some value) res = record res { headers = insert name value res.headers }

-- The loop over the reply's headers that reach the browser.
unfoldable pub copy_headers : Dict String → List String → Response → Response
copy_headers upstream [] res = res
copy_headers upstream (name ∷ names) res =
    copy_headers upstream names (put_header name (truthy (lookup name upstream)) res)

abbrev pub copied_headers : List String
copied_headers = "content-type" ∷ "content-disposition" ∷ "etag" ∷ []

-- `res.status`, the headers and `res.send`, which sends them.
unfoldable pub send_upstream : RawBackendResponse → Response → Response
unfolding copy_headers
send_upstream upstream res =
    record (copy_headers upstream.headers copied_headers
      (record res { status = upstream.status })) {
        body = some upstream.data_bytes;
        headers_sent = true;
      }

unfoldable pub forward_allowed : Env → String → String → Dict String → Request → M (Unit {0})
unfolding extra_headers forwarded_body send_upstream
forward_allowed env resource suffix query req = do
  session ← require_session req
  id ← extract_correlation_id env req
  upstream ← request_raw env (record {
    session = session;
    method = req.method;
    path = "/api/v1/" +++ resource +++ suffix;
    query = some query;
    body = forwarded_body req;
    extra_headers = extra_headers req.headers forwarded_headers [];
    correlation_id = some id;
  })
  respond (send_upstream upstream)

unfoldable pub forward : Env → String → String → Dict String → Request → M (Unit {0})
unfolding contains forward_allowed
forward env resource suffix query req =
    if contains resource allowed_proxy_resources
    then forward_allowed env resource suffix query req
    else throw (http 404 (object (problem "not-found" "Not found")))

unfoldable pub proxy_resource : Env → Request → M (Unit {0})
unfolding forward resource_from_path
proxy_resource env req = forward env (resource_from_path req.path) "" req.query req

-- `path` is the wildcard's match, in its parts.
unfoldable pub proxy_sub_path : Env → List String → Request → M (Unit {0})
unfolding forward resource_from_path join
proxy_sub_path env path req =
    forward env (resource_from_path req.path) ("/" +++ join "/" path) req.query req
