-- ===== src/Bff/BackendClient/Frames.antt =====
-- What a call of `requestRaw` leaves alone, and for what its requests ask.
use fernbank.Base.{
  ◌≡◌, refl, ap, ◌∙◌, [], ◌∷◌, String, Option, none, some, All, ◌⊎◌, inl, inr, Bool-cases, arith,
  eq_iff,
}
use fernbank.Base.Dict.{Dict, lookup, insert, lookup-insert, IsMap}
use fernbank.Base.Text.{◌+++◌}
use fernbank.Bff.Http.{HttpRequest, Exception}
use fernbank.Bff.World.{Env, World, Shared, catch}
use fernbank.Bff.World.Rules.{Preserves, >>=-Preserves, catch-Preserves}
use fernbank.Bff.TokenCache.{refresh_request, force_refresh, resolve_access_token}
use fernbank.Bff.TokenCache.Frames.{resolve_access_token-Preserves, force_refresh-Preserves}
use fernbank.Bff.TokenCache.Requests.{IsRefresh, refresh_request-IsRefresh}
use fernbank.Bff.BackendClient.{
  AuthenticatedRequestOptions, do_request, retry, request_raw, is_unauthorized,
  authenticated_request, spread, content_type,
}
use fernbank.Bff.BackendClient.Laws.{do_request_lem, read_reply-world, lookup-spread}

module _ (env : Env) (options : AuthenticatedRequestOptions) (P : World → Type 0)
    (any_shared : (w : World) (s : Shared) → P w → P (record w { shared = s }))
    (any_refresh : (w : World) (id token : String)
      → P w
      → P (record w { sent = refresh_request env id token ∷ w.sent }))
    (any_made : (w : World) (token id : String)
      → P w
      → P (record w { sent = authenticated_request env options token id ∷ w.sent })) where
  do_request-Preserves : (token : String) → Preserves P (do_request env options token)
  do_request-Preserves token w h =
      rw (do_request_lem env options token w, read_reply-world env)
        (any_shared _ _ (any_made w token _ h))

  retry-Preserves : (error : Exception) → Preserves P (retry env options error)
  unfolding retry
  retry-Preserves error w h = elim (Bool-cases (is_unauthorized error)) [
    | inl refused ↦ rw refused (
        >>=-Preserves P (force_refresh env options.session.session_id options.session.refresh_token)
          (do_request env options) (force_refresh-Preserves env P any_shared any_refresh _ _)
          do_request-Preserves w h)
    | inr other ↦ rw other h
  ]

  pub request_raw-Preserves : Preserves P (request_raw env options)
  unfolding request_raw
  request_raw-Preserves =
      >>=-Preserves P
        (resolve_access_token env options.session.session_id options.session.refresh_token)
        (λ (token : String). catch (do_request env options token) (retry env options))
        (resolve_access_token-Preserves env P any_shared any_refresh _ _)
        (λ token.
          catch-Preserves P (do_request env options token) (retry env options)
            (do_request-Preserves token) retry-Preserves)

-- A call to the backend does not touch the response to the browser.
pub request_raw-response :
    (env : Env) (options : AuthenticatedRequestOptions) (w : World)
    → (request_raw env options w).1.response ≡ w.response
request_raw-response env options w =
    request_raw-Preserves env options (λ v. v.response ≡ w.response) (λ v s h. h)
      (λ v id token h. h) (λ v token id h. h) w refl

-- A refresh, or what a call asks for, apart from the token and the correlation id.
abbrev pub IsFor : Env → AuthenticatedRequestOptions → HttpRequest → Type 0
IsFor env options r =
    IsRefresh env r
    ⊎ ((token : String) × (lookup "Authorization" r.headers ≡ some ("Bearer " +++ token))
        × (lookup "idempotency-key" r.headers ≡ lookup "idempotency-key" options.extra_headers)
        × (r.method ≡ options.method)
        × (r.url ≡ env.config.backend_internal_base_url +++ options.path)
        × (r.query ≡ options.query)
        × (r.body ≡ options.body))

abbrev first_of_two : Option String → Option String → Option String
first_of_two none b = b
first_of_two (some v) b = some v

lookup-spread_map :
    (k : String) (base extra : Dict String)
    → IsMap extra
    → lookup k (spread base extra) ≡ first_of_two (lookup k extra) (lookup k base)
unfolding spread lookup
lookup-spread_map k base [] h = refl
lookup-spread_map k base ((j, v) ∷ extra) h =
    ground
      (arith, lookup-spread_map k (insert j v base) extra h.1, lookup-insert j k v base, eq_iff j k)

first_of_two-none : (a : Option String) → first_of_two a none ≡ a
first_of_two-none none = refl
first_of_two-none (some v) = refl

no_key :
    (token id : String) (body : Option (Dict String))
    → lookup "idempotency-key"
        (("Authorization", token) ∷ ("X-Correlation-Id", id) ∷ content_type body)
      ≡ none
unfolding lookup
no_key token id none = refl
no_key token id (some b) = refl

pub authenticated_request-IsFor :
    (env : Env) (options : AuthenticatedRequestOptions) (token id : String)
    → IsMap options.extra_headers
    → lookup "Authorization" options.extra_headers ≡ none
    → IsFor env options (authenticated_request env options token id)
unfolding authenticated_request
authenticated_request-IsFor env options token id once plain_headers = inr (
  token,
  lookup-spread "Authorization" _ options.extra_headers plain_headers ∙ unfold lookup in refl,
  lookup-spread_map "idempotency-key" _ options.extra_headers once
      ∙ ap (first_of_two (lookup "idempotency-key" options.extra_headers))
          (no_key _ id options.body)
      ∙ first_of_two-none _,
  refl,
  refl,
  refl,
  refl,
)

-- Every request that a call of `requestRaw` sends is a refresh, a POST of a refresh token to
-- the backend's refresh path with no access token and no idempotency key, or asks for the caller's resource with its method, query, body and idempotency key, under a bearer token;
-- so what the retry sends is what was sent first, and the backend can tell.
pub request_raw-IsFor :
    (env : Env) (options : AuthenticatedRequestOptions) (w : World)
    → IsMap options.extra_headers
    → lookup "Authorization" options.extra_headers ≡ none
    → All (IsFor env options) w.sent
    → All (IsFor env options) (request_raw env options w).1.sent
request_raw-IsFor env options w once plain_headers =
    request_raw-Preserves env options (λ v. All (IsFor env options) v.sent) (λ v s h. h)
      (λ v id token h. (inl (refresh_request-IsRefresh env id token), h))
      (λ v token id h. (authenticated_request-IsFor env options token id once plain_headers, h)) w
