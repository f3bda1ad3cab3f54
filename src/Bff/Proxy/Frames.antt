-- ===== src/Bff/Proxy/Frames.antt =====
-- What the steps of `forward` in proxy.controller.ts leave as it is.
use fernbank.Base.{
  ◌≡◌, refl, ap, sym, subst, ◌∙◌, inl, inr, true, List, [], ◌∷◌, String, Option, none, some,
  Bool-cases, Option-cases,
}
use fernbank.Base.Dict.{Dict, lookup}
use fernbank.Base.Text.{◌+++◌, truthy}
use fernbank.Bff.Http.{Request, ok, Response, SessionPayload, CookieWrite}
use fernbank.Bff.World.{Env, World}
use fernbank.Bff.World.Rules.{bind_ensures, Preserves, >>=-Preserves}
use fernbank.Bff.BackendClient.{AuthenticatedRequestOptions, RawBackendResponse, request_raw}
use fernbank.Bff.BackendClient.Frames.{request_raw-response}
use fernbank.Bff.Session.{require_session, require}
use fernbank.Bff.Common.{extract_correlation_id, first_value}
use fernbank.Bff.Proxy.{
  allowed_proxy_resources, contains, extra_headers, forwarded_headers, forwarded_body, copy_headers,
  copied_headers, send_upstream, forward_allowed, forward, put_header,
}

put_header-cookies :
    (name : String) (value : Option String) (res : Response)
    → (put_header name value res).cookie_writes ≡ res.cookie_writes
put_header-cookies name none res = refl
put_header-cookies name (some value) res = refl

copy_headers-cookies :
    (upstream : Dict String) (names : List String) (res : Response)
    → (copy_headers upstream names res).cookie_writes ≡ res.cookie_writes
unfolding copy_headers
copy_headers-cookies upstream [] res = refl
copy_headers-cookies upstream (name ∷ names) res =
    copy_headers-cookies upstream names _ ∙ put_header-cookies name _ res

extract_correlation_id-response :
    (env : Env) (req : Request) (w : World)
    → (extract_correlation_id env req w).1.response ≡ w.response
unfolding extract_correlation_id
extract_correlation_id-response env req w =
    elim (Option-cases (truthy (first_value (lookup "x-correlation-id" req.headers)))) [
      | inl e ↦ rw (e, extract_correlation_id) refl
      | inr (id, e) ↦ rw (e, extract_correlation_id) refl
    ]

require-world : (session : Option SessionPayload) (w : World) → (require session w).1 ≡ w
unfolding require
require-world none w = refl
require-world (some session) w = refl

module _ (env : Env) (resource suffix : String) (query : Dict String) (req : Request) where
  -- What `forward` asks of the backend client.
  abbrev pub forwarded : SessionPayload → String → AuthenticatedRequestOptions
  forwarded session id = record {
    session = session;
    method = req.method;
    path = "/api/v1/" +++ resource +++ suffix;
    query = some query;
    body = forwarded_body req;
    extra_headers = extra_headers req.headers forwarded_headers [];
    correlation_id = some id;
  }

  pub forward_allowed-Preserves :
      (P : World → Type 0)
      → Preserves P (extract_correlation_id env req)
      → ((session : SessionPayload) (id : String)
          → Preserves P (request_raw env (forwarded session id)))
      → ((upstream : RawBackendResponse) (v : World)
          → P v
          → P (record v { response = send_upstream upstream v.response }))
      → Preserves P (forward_allowed env resource suffix query req)
  unfolding forward_allowed require_session
  forward_allowed-Preserves P extracts calls sends =
      >>=-Preserves P (require_session req) _
        (λ w h. subst P (sym (require-world req.fernbank_session w)) h)
        (λ session. >>=-Preserves P (extract_correlation_id env req) _ extracts (λ id.
          >>=-Preserves P (request_raw env (forwarded session id)) _ (calls session id)
            (λ upstream v h. sends upstream v h)))

  pub forward-Preserves :
      (P : World → Type 0)
      → Preserves P (forward_allowed env resource suffix query req)
      → Preserves P (forward env resource suffix query req)
  unfolding forward
  forward-Preserves P allowed w h = elim (Bool-cases (contains resource allowed_proxy_resources)) [
    | inl listed ↦ rw listed (allowed w h)
    | inr unlisted ↦ rw unlisted h
  ]

  pub forward-cookies :
      (writes : List CookieWrite)
      → Preserves (λ v. v.response.cookie_writes ≡ writes) (forward env resource suffix query req)
  unfolding send_upstream
  forward-cookies writes = forward-Preserves _ (
      forward_allowed-Preserves _
        (λ w h. ap (λ r. r.cookie_writes) (extract_correlation_id-response env req w) ∙ h)
        (λ session id w h.
          ap (λ r. r.cookie_writes) (request_raw-response env (forwarded session id) w) ∙ h)
        (λ upstream v h. copy_headers-cookies upstream.headers copied_headers _ ∙ h))

  forward_allowed-sent :
      (w : World)
      → (forward_allowed env resource suffix query req w).0 ≡ ok tt
      → (forward_allowed env resource suffix query req w).1.response.headers_sent ≡ true
  unfolding forward_allowed send_upstream
  forward_allowed-sent w =
      bind_ensures (λ v. v.response.headers_sent ≡ true) _ (require_session req w) tt
        (λ session v.
          bind_ensures (λ v. v.response.headers_sent ≡ true) _ (extract_correlation_id env req v) tt
            (λ id u.
              bind_ensures (λ v. v.response.headers_sent ≡ true) _
                (request_raw env (forwarded session id) u) tt (λ upstream t e. refl)))

  pub forward-sent :
      (w : World)
      → (forward env resource suffix query req w).0 ≡ ok tt
      → (forward env resource suffix query req w).1.response.headers_sent ≡ true
  unfolding forward
  forward-sent w e = elim (Bool-cases (contains resource allowed_proxy_resources)) [
    | inl listed ↦ rw listed (forward_allowed-sent w (rw listed at e))
    | inr unlisted ↦ cc (rw unlisted at e)
  ]
