-- ===== src/Bff/BackendClient/Laws.antt =====
-- What the methods of backend-client.service.ts promise to the controllers.
use fernbank.Base.{
  ℕ, suc, ◌+◌, ◌≤◌, ◌≡◌, refl, Bool, true, false, [], ◌∷◌, String, Option, none, some, arith, not,
  leb, Option-cases, inl, inr, eq_iff,
}
use fernbank.Base.Dict.{Dict, lookup, insert, lookup-insert, IsMap}
use fernbank.Bff.Http.{
  HttpRequest, HttpReply, HeaderValue, one, many, Result, ok, throws, Exception, upstream, http,
  plain, upstream_http_exception,
}
use fernbank.Bff.World.{Env, World, catch, request, Shared}
use fernbank.Bff.World.Rules.{Adds, >>=-Adds, catch-Adds}
use fernbank.Bff.TokenCache.{resolve_access_token, force_refresh}
use fernbank.Bff.TokenCache.Requests.{
  count_sent, is_authorized, all_requests, resolve_access_token-Adds_authorized,
  force_refresh-Adds_authorized, resolve_access_token-Adds_all, force_refresh-Adds_all,
}
use fernbank.Bff.BackendClient.{
  AuthenticatedRequestOptions, RawBackendResponse, normalize_headers, spread, correlation_or_new,
  authenticated_request, read_reply, do_request, retry, request_raw,
}

pub lookup-spread :
    (k : String) (base extra : Dict String)
    → lookup k extra ≡ none
    → lookup k (spread base extra) ≡ lookup k base
unfolding spread lookup
lookup-spread k base [] h = refl
lookup-spread k base ((j, v) ∷ extra) h =
    ground (arith, lookup-spread k (insert j v base) extra, lookup-insert j k v base)

-- A header's value, where that is one text.
abbrev pub text_of : Option HeaderValue → Option String
text_of none = none
text_of (some (one v)) = some v
text_of (some (many vs)) = none

-- Of the headers of a reply that has each once, the caller sees those that are one text, with their
-- values, and no others.
pub lookup-normalize_headers :
    (k : String) (headers : Dict HeaderValue)
    → IsMap headers
    → lookup k (normalize_headers headers) ≡ text_of (lookup k headers)
unfolding normalize_headers lookup
lookup-normalize_headers k [] h = refl
lookup-normalize_headers k ((j, one v) ∷ rest) h =
    ground (arith, lookup-normalize_headers k rest h.1)
lookup-normalize_headers k ((j, many vs) ∷ rest) h =
    ground (arith, eq_iff j k, lookup-normalize_headers k rest h.1)

pub read_reply-world :
    (env : Env) (reply : Option HttpReply) (w : World) → (read_reply env reply w).1 ≡ w
unfolding read_reply
read_reply-world env none w = refl
read_reply-world env (some reply) w = ground arith

-- The request that a call of `do_request` makes, and the state in which its reply is read.
abbrev pub correlated : Env → AuthenticatedRequestOptions → World → String × Shared
correlated env options w = elim options.correlation_id [
  | some id ↦ (id, w.shared)
  | none ↦ (env.uuid w.shared.drawn, record w.shared { drawn = suc w.shared.drawn })
]

abbrev pub made : Env → AuthenticatedRequestOptions → String → World → HttpRequest
made env options token w = authenticated_request env options token (correlated env options w).0

abbrev pub reply_to : Env → AuthenticatedRequestOptions → String → World → Option HttpReply × Shared
reply_to env options token w = env.exchange (correlated env options w).1 (made env options token w)

pub do_request_lem :
    (env : Env) (options : AuthenticatedRequestOptions) (token : String) (w : World)
    → do_request env options token w
      ≡ read_reply env (reply_to env options token w).0 (record w {
        shared = (reply_to env options token w).1;
        sent = made env options token w ∷ w.sent;
      })
unfolding do_request correlation_or_new request
do_request_lem env options token w = elim (Option-cases options.correlation_id) [
  | inl e ↦ rw (e, do_request, correlation_or_new, correlated) refl
  | inr (id, e) ↦ rw (e, do_request, correlation_or_new, correlated) refl
]

pub do_request-sent :
    (env : Env) (options : AuthenticatedRequestOptions) (token : String) (w : World)
    → (do_request env options token w).1.sent ≡ made env options token w ∷ w.sent
do_request-sent env options token w =
    rw (do_request_lem env options token w, read_reply-world env) refl

-- The status that a result carries to the browser.
abbrev pub status_of : Result RawBackendResponse → Option ℕ
status_of (ok raw) = some raw.status
status_of (throws (upstream status body)) = some status
status_of (throws (http status response)) = some status
status_of (throws (plain message)) = none

abbrev pub is_ok : {A : Type 0} → Result A → Bool
is_ok (ok a) = true
is_ok (throws e) = false

abbrev pub reply_status : Option HttpReply → ℕ
reply_status none = 502
reply_status (some reply) = reply.status

read_reply-status :
    (env : Env) (reply : Option HttpReply) (w : World)
    → (status_of (read_reply env reply w).0 ≡ some (reply_status reply))
      × (is_ok (read_reply env reply w).0 ≡ not (leb 400 (reply_status reply)))
unfolding read_reply upstream_http_exception
read_reply-status env none w = (refl, refl)
read_reply-status env (some reply) w = (ground arith, ground arith)

-- A call of `doRequest` sends one request, and the status of its result is that of the backend's
-- reply, or 502 without a reply; it is a normal result exactly if that status is below 400.
pub do_request-status :
    (env : Env) (options : AuthenticatedRequestOptions) (token : String) (w : World)
    → ((do_request env options token w).1.sent ≡ made env options token w ∷ w.sent)
      × (status_of (do_request env options token w).0
          ≡ some (reply_status (reply_to env options token w).0))
      × (is_ok (do_request env options token w).0
          ≡ not (leb 400 (reply_status (reply_to env options token w).0)))
do_request-status env options token w = (
  do_request-sent env options token w,
  rw (do_request_lem env options token w) (read_reply-status env _ _).0,
  rw (do_request_lem env options token w) (read_reply-status env _ _).1,
)

do_request-Adds :
    (env : Env) (options : AuthenticatedRequestOptions) (token : String) (test : HttpRequest → Bool)
    → Adds (count_sent test) 1 (do_request env options token)
do_request-Adds env options token test w = rw (do_request-sent env options token w) (ground arith)

retry-Adds :
    (env : Env) (options : AuthenticatedRequestOptions) (test : HttpRequest → Bool) (n : ℕ)
    → Adds
        (count_sent test)
        n
        (force_refresh env options.session.session_id options.session.refresh_token)
    → (error : Exception) → Adds (count_sent test) (n + 1) (retry env options error)
unfolding retry
retry-Adds env options test n few error w = ground (
  arith,
  >>=-Adds (count_sent test) n 1
      (force_refresh env options.session.session_id options.session.refresh_token)
      (do_request env options) few (λ token. do_request-Adds env options token test) w,
)

request_raw-Adds :
    (env : Env) (options : AuthenticatedRequestOptions) (test : HttpRequest → Bool) (n : ℕ)
    → Adds
        (count_sent test)
        n
        (resolve_access_token env options.session.session_id options.session.refresh_token)
    → Adds
        (count_sent test)
        n
        (force_refresh env options.session.session_id options.session.refresh_token)
    → Adds (count_sent test) (n + (1 + (n + 1))) (request_raw env options)
unfolding request_raw
request_raw-Adds env options test n few again =
    >>=-Adds (count_sent test) n (1 + (n + 1))
      (resolve_access_token env options.session.session_id options.session.refresh_token)
      (λ (token : String). catch (do_request env options token) (retry env options)) few
      (λ token.
        catch-Adds (count_sent test) 1 (n + 1) (do_request env options token) (retry env options)
          (do_request-Adds env options token test) (retry-Adds env options test n again))

-- However the backend answers, a call of `requestRaw` asks for the resource twice at most, and
-- sends four requests at most, refreshes included.
pub request_raw_bounds :
    (env : Env) (options : AuthenticatedRequestOptions) (w : World)
    → (count_sent is_authorized (request_raw env options w).1 ≤ count_sent is_authorized w + 2)
      × (count_sent all_requests (request_raw env options w).1 ≤ count_sent all_requests w + 4)
request_raw_bounds env options w = (
  omega (
    arith,
    request_raw-Adds env options is_authorized 0
        (resolve_access_token-Adds_authorized env options.session.session_id
          options.session.refresh_token)
        (force_refresh-Adds_authorized env options.session.session_id options.session.refresh_token)
        w,
  ),
  omega (
    arith,
    request_raw-Adds env options all_requests 1
        (resolve_access_token-Adds_all env options.session.session_id options.session.refresh_token)
        (force_refresh-Adds_all env options.session.session_id options.session.refresh_token) w,
  ),
)
