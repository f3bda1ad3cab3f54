-- ===== src/Bff/Proxy/Forwarding.antt =====
-- What proxy.controller.ts hands on, and what it does to the browser's cookies.
use fernbank.Base.{
  ◌≡◌, ◌≢◌, refl, ap, sym, subst, ◌∙◌, false, ◌∷◌, ◌==◌, ◌||◌, eq_iff, arith, ◌⊎◌, inl, inr, true,
  [], String, Option, none, some, All, Option-cases,
}
use fernbank.Base.Dict.{Dict, lookup, insert, IsMap}
use fernbank.Base.Text.{◌+++◌, truthy}
use fernbank.Bff.Http.{
  HeaderValue, one, many, Request, Result, ok, throws, HttpRequest, SessionPayload,
}
use fernbank.Bff.World.{Env, World}
use fernbank.Bff.World.Rules.{Preserves}
use fernbank.Bff.BackendClient.{request_raw}
use fernbank.Bff.BackendClient.Laws.{text_of}
use fernbank.Bff.TokenCache.Requests.{IsRefresh, refresh_request-IsRefresh}
use fernbank.Bff.BackendClient.Frames.{IsFor, request_raw-Preserves, authenticated_request-IsFor}
use fernbank.Bff.Session.{intercept}
use fernbank.Bff.Session.Sync.{intercept_lem, synced, sync_cookie-sent}
use fernbank.Bff.Common.{extract_correlation_id, first_value}
use fernbank.Bff.Proxy.{
  extra_headers, forwarded_headers, forwarded_body, forward, keep_text, body_with_keys,
}
use fernbank.Bff.Proxy.Frames.{
  forwarded, forward_allowed-Preserves, forward-Preserves, forward-cookies, forward-sent,
}

module _ (env : Env) (session : Option SessionPayload) where
  synced-sent :
      (r : Result (Unit {0}) × World)
      → (r.0 ≡ ok tt → r.1.response.headers_sent ≡ true)
      → synced env session r ≡ r
  synced-sent (ok u, w) h = ap (λ v. (ok u, v)) (sync_cookie-sent env session w (h refl))
  synced-sent (throws e, w) h = refl

-- A proxied request answers the browser before the interceptor looks: whatever the call to the backend
-- did to the session's refresh token, the response writes no cookie that the request had not written
-- before.
pub intercept-forward-cookies :
    (env : Env) (resource suffix : String) (query : Dict String) (req : Request) (w : World)
    → (intercept env req (forward env resource suffix query req) w).1.response.cookie_writes
      ≡ w.response.cookie_writes
intercept-forward-cookies env resource suffix query req w =
    rw
      (
        intercept_lem env req (forward env resource suffix query req) w,
        synced-sent env req.fernbank_session (forward env resource suffix query req w)
            (forward-sent env resource suffix query req w),
      )
      (forward-cookies env resource suffix query req w.response.cookie_writes w refl)

-- Of the browser's headers the proxy hands on the idempotency key, where that is one text.
abbrev Keeps : Option HeaderValue → Dict String → Type 0
Keeps value kept =
    IsMap kept
    × (lookup "Authorization" kept ≡ none)
    × (lookup "idempotency-key" kept ≡ text_of value)

keep_text-Keeps : (value : Option HeaderValue) → Keeps value (keep_text "idempotency-key" value [])
unfolding lookup insert
keep_text-Keeps none = (tt, refl, refl)
keep_text-Keeps (some (one v)) = ((refl, tt), refl, refl)
keep_text-Keeps (some (many vs)) = (tt, refl, refl)

extra_headers-Keeps :
    (headers : Dict HeaderValue)
    → Keeps (lookup "idempotency-key" headers) (extra_headers headers forwarded_headers [])
unfolding extra_headers
extra_headers-Keeps headers = keep_text-Keeps (lookup "idempotency-key" headers)

extract_correlation_id-sent :
    (env : Env) (req : Request) (w : World) → (extract_correlation_id env req w).1.sent ≡ w.sent
unfolding extract_correlation_id
extract_correlation_id-sent env req w =
    elim (Option-cases (truthy (first_value (lookup "x-correlation-id" req.headers)))) [
      | inl e ↦ rw (e, extract_correlation_id) refl
      | inr (id, e) ↦ rw (e, extract_correlation_id) refl
    ]

-- The body that goes with a request: none for GET and HEAD, and else the browser's, where it has one with
-- a key in it.
abbrev pub IsBody : Request → Option (Dict String) → Type 0
IsBody req body =
    (((req.method ≡ "GET") ⊎ (req.method ≡ "HEAD")) × (body ≡ none))
    ⊎ ((req.method ≢ "GET")
        × (req.method ≢ "HEAD")
        × (((req.body ≡ none) × (body ≡ none))
            ⊎ ((req.body ≡ some []) × (body ≡ none))
            ⊎ ((field : String × String) × (fields : Dict String) × (req.body
                  ≡ some (field ∷ fields))
                × (body ≡ some (field ∷ fields)))))

body_with_keys-cases :
    (body : Option (Dict String))
    → ((body ≡ none) × (body_with_keys body ≡ none))
      ⊎ ((body ≡ some []) × (body_with_keys body ≡ none))
      ⊎ ((field : String × String) × (fields : Dict String) × (body ≡ some (field ∷ fields))
          × (body_with_keys body ≡ some (field ∷ fields)))
body_with_keys-cases none = inl (refl, refl)
body_with_keys-cases (some []) = inr (inl (refl, refl))
body_with_keys-cases (some (field ∷ fields)) = inr (inr (field, fields, refl, refl))

has_no_body :
    (method : String)
    → (((method ≡ "GET") ⊎ (method ≡ "HEAD")) × ((method == "GET" || method == "HEAD") ≡ true))
      ⊎ ((method ≢ "GET") × (method ≢ "HEAD") × ((method == "GET" || method == "HEAD") ≡ false))
has_no_body method = ground (arith, eq_iff method "GET", eq_iff method "HEAD")

forwarded_body-IsBody : (req : Request) → IsBody req (forwarded_body req)
unfolding forwarded_body
forwarded_body-IsBody req = elim (has_no_body req.method) [
  | inl (bare, e) ↦ rw e (inl (bare, refl))
  | inr (other, another, e) ↦ rw e (inr (other, another, body_with_keys-cases req.body))
]

-- A refresh, or the browser's request, asked of the backend for the resource under some access token
-- and the idempotency key, if there is one.
abbrev pub IsForwarded : Env → String → String → Dict String → Request → HttpRequest → Type 0
IsForwarded env resource suffix query req r =
    IsRefresh env r
    ⊎ ((token : String) × (lookup "Authorization" r.headers ≡ some ("Bearer " +++ token))
        × (lookup "idempotency-key" r.headers ≡ text_of (lookup "idempotency-key" req.headers))
        × (r.method ≡ req.method)
        × (r.url ≡ env.config.backend_internal_base_url +++ "/api/v1/" +++ resource +++ suffix)
        × (r.query ≡ some query)
        × IsBody req r.body)

module _ (env : Env) (resource suffix : String) (query : Dict String) (req : Request) where
  IsFor-IsForwarded :
      (session : SessionPayload) (id : String) (r : HttpRequest)
      → IsFor env (forwarded env resource suffix query req session id) r
      → IsForwarded env resource suffix query req r
  IsFor-IsForwarded session id r (inl refresh) = inl refresh
  IsFor-IsForwarded session id r (inr (token, bearer, key, method, url, asked, body)) = inr (
    token,
    bearer,
    key ∙ (extra_headers-Keeps req.headers).2,
    method,
    url,
    asked,
    subst (IsBody req) (sym body) (forwarded_body-IsBody req),
  )

  request_raw-IsForwarded :
      (session : SessionPayload) (id : String)
      → Preserves
          (λ v. All (IsForwarded env resource suffix query req) v.sent)
          (request_raw env (forwarded env resource suffix query req session id))
  request_raw-IsForwarded session id =
      let options = forwarded env resource suffix query req session id in
      let (once, plain_headers, keyed) = extra_headers-Keeps req.headers in
      request_raw-Preserves env options
        (λ v. All (IsForwarded env resource suffix query req) v.sent) (λ v s h. h)
        (λ v id' token h. (inl (refresh_request-IsRefresh env id' token), h))
        (λ v token id' h. (
          IsFor-IsForwarded session id _
              (authenticated_request-IsFor env options token id' once plain_headers),
          h,
        ))

  -- Every request that the proxy sends is a refresh, a POST of a refresh token to the backend's refresh
  -- path with no access token and no idempotency key, or the browser's own: with its method, query and
  -- body (none for GET and HEAD, and none if it has no fields), its idempotency key on the first try and
  -- on the retry alike, for the same path below /api/v1, under an access token.
  pub forward-IsForwarded :
      (w : World)
      → All (IsForwarded env resource suffix query req) w.sent
      → All
          (IsForwarded env resource suffix query req)
          (forward env resource suffix query req w).1.sent
  forward-IsForwarded = forward-Preserves env resource suffix query req _ (
      forward_allowed-Preserves env resource suffix query req
        (λ v. All (IsForwarded env resource suffix query req) v.sent)
        (λ w h. subst (All _) (sym (extract_correlation_id-sent env req w)) h)
        request_raw-IsForwarded (λ upstream v h. h))
