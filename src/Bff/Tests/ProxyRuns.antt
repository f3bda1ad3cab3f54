-- ===== src/Bff/Tests/ProxyRuns.antt =====
-- The theorems about what the proxy hands on and what the filter answers, at the fixture.
use fernbank.Base.{
  ◌≡◌, refl, inl, inr, [], ◌∷◌, String, Option, none, some, ap, sym, ◌∙◌, or_else, ◌==◌, arith, All,
}
use fernbank.Base.Dict.{Dict, lookup}
use fernbank.Base.Text.Laws.{lacks→Lacks}
use fernbank.Bff.Http.{HeaderValue, Request}
use fernbank.Bff.Crypto.{encrypt, decrypt}
use fernbank.Bff.World.{M, pure}
use fernbank.Bff.BackendClient.{AuthenticatedRequestOptions, normalize_headers, request_raw}
use fernbank.Bff.BackendClient.Laws.{lookup-normalize_headers, text_of}
use fernbank.Bff.BackendClient.Frames.{request_raw-IsFor, IsFor}
use fernbank.Bff.Session.{intercept, session_context, session_cookie_name, csrf_cookie_name}
use fernbank.Bff.Csrf.{csrf_mismatch, is_safe_method}
use fernbank.Bff.Csrf.Guard.{Passes}
use fernbank.Bff.Proxy.{
  forward, forward_allowed, proxy_resource, proxy_sub_path, resource_from_path,
}
use fernbank.Base.Text.{join}
use fernbank.Bff.Proxy.Routing.{resource_from_path_lem, IsRouted, proxy-IsRouted}
use fernbank.Bff.Proxy.Forwarding.{intercept-forward-cookies, forward-IsForwarded, IsForwarded}
use fernbank.Bff.Filter.{serve, problem_answer, problem_document}
use fernbank.Bff.Filter.Answers.{serve-refuses}
use fernbank.Bff.Tests.Fixture.{server, answers, world, session, browser_request, open_crypto, iv}

abbrev upstream_headers : Dict HeaderValue
upstream_headers =
    ("etag", HeaderValue.one "v1") ∷ ("set-cookie", HeaderValue.many ("a" ∷ "b" ∷ [])) ∷ []

lookup-normalize_headers_example :
    lookup "set-cookie" (normalize_headers upstream_headers)
    ≡ text_of (lookup "set-cookie" upstream_headers)
unfolding lookup
lookup-normalize_headers_example =
    lookup-normalize_headers "set-cookie" upstream_headers (refl, (refl, tt))

abbrev transfer_options : AuthenticatedRequestOptions
transfer_options = record {
  session = session;
  method = "POST";
  path = "/api/v1/transfers";
  query = none;
  body = some (("amount", "1.00") ∷ []);
  extra_headers = ("idempotency-key", "k1") ∷ [];
  correlation_id = some "c";
}

request_raw-IsFor_example :
    All
      (IsFor (server (answers 401)) transfer_options)
      (request_raw (server (answers 401)) transfer_options world).1.sent
unfolding lookup
request_raw-IsFor_example =
    request_raw-IsFor (server (answers 401)) transfer_options world (refl, tt) refl tt

abbrev transfer_request : Request
transfer_request = record browser_request {
  headers = ("idempotency-key", HeaderValue.one "k1") ∷ [];
}

forward-IsForwarded_example :
    All
      (IsForwarded (server (answers 401)) "transfers" "" [] transfer_request)
      (forward (server (answers 401)) "transfers" "" [] transfer_request world).1.sent
forward-IsForwarded_example =
    forward-IsForwarded (server (answers 401)) "transfers" "" [] transfer_request world tt

abbrev transfers_request : Request
transfers_request = record browser_request { path = "/api/v1/transfers" }

abbrev transfer_7_request : Request
transfer_7_request = record browser_request { path = "/api/v1/transfers/7" }

proxy-IsRouted_example :
    IsRouted "transfers" transfers_request world
      (forward_allowed (server (answers 200)) "transfers" "" [] transfers_request world)
      (proxy_resource (server (answers 200)) transfers_request world)
    × IsRouted "transfers" transfer_7_request world
        (forward_allowed (server (answers 200)) "transfers" "/7" [] transfer_7_request world)
        (proxy_sub_path (server (answers 200)) ("7" ∷ []) transfer_7_request world)
unfolding join
proxy-IsRouted_example =
    proxy-IsRouted (server (answers 200)) "transfers" "7" ("7" ∷ []) transfers_request
      transfer_7_request world (lacks→Lacks b'/' "transfers" refl) refl refl

intercept-forward-cookies_example :
    (intercept
      (server (answers 200))
      browser_request
      (forward (server (answers 200)) "accounts" "" [] browser_request)
      world).1.response.cookie_writes
    ≡ []
intercept-forward-cookies_example =
    intercept-forward-cookies (server (answers 200)) "accounts" "" [] browser_request world

resource_from_path_lem_example :
    (resource_from_path "/api/v1/accounts" ≡ "accounts")
    × (resource_from_path "/api/v1/accounts/7/statement" ≡ "accounts")
resource_from_path_lem_example =
    resource_from_path_lem "accounts" "7/statement" (lacks→Lacks b'/' "accounts" refl)

-- A request whose header carries another token than its cookie.
abbrev forged_request : Request
forged_request = record browser_request {
  headers = ("x-csrf-token", HeaderValue.one "u") ∷ [];
  cookies = (session_cookie_name, encrypt open_crypto [] iv session) ∷ (csrf_cookie_name, "t") ∷ [];
}

forged_request-not_Passes : ¬ Passes (session_context (server (answers 200)) forged_request)
unfolding session_context lookup is_safe_method decrypt encrypt
forged_request-not_Passes (inl safe) = cc
forged_request-not_Passes (inr (inl absent)) = cc
forged_request-not_Passes (inr (inr (token, full, left, right))) =
    let equal : ◌≡◌ {A = Option String} (some "t") (some "u") = left ∙ sym right in
    ground (arith, ap (λ o. or_else o "" == "t") equal)

abbrev handler : Request → M String
handler req = pure "done"

serve-refuses_example : serve (server (answers 200)) handler forged_request world ≡ (
  problem_document 403
      (problem_answer csrf_mismatch (session_context (server (answers 200)) forged_request)).1,
  world,
)
serve-refuses_example =
    serve-refuses (server (answers 200)) handler forged_request world forged_request-not_Passes
