-- ===== src/Bff/Proxy/Routing.antt =====
-- Which requests proxy.controller.ts and proxy-allowlist.ts let through, by their path and session.
use fernbank.Base.{
  ◌≡◌, ◌≢◌, refl, ap, sym, subst, ◌∙◌, ◌⊎◌, inl, inr, true, false, List, String, none, some, eq_iff,
  arith, Option-cases,
}
use fernbank.Base.Text.{◌+++◌, join}
use fernbank.Base.Text.Laws.{Lacks, strip_prefix-append, split-append, split-Lacks}
use fernbank.Bff.Http.{Request, Result, throws, SessionPayload, http, object, problem}
use fernbank.Bff.World.{Env, World}
use fernbank.Bff.Session.{require_session, require}
use fernbank.Bff.Proxy.{
  allowed_proxy_resources, contains, resource_from_path, forward_allowed, forward, proxy_resource,
  proxy_sub_path,
}

-- The resource of a path is the part between /api/v1/ and the next slash, and all behind /api/v1/ where
-- no slash follows.
pub resource_from_path_lem :
    (resource rest : String)
    → Lacks b'/' resource
    → (resource_from_path ("/api/v1/" +++ resource) ≡ resource)
      × (resource_from_path ("/api/v1/" +++ resource +++ String.◌∷◌ "/" rest) ≡ resource)
unfolding resource_from_path
resource_from_path_lem resource rest h = (
  rw (strip_prefix-append "/api/v1/" resource, split-Lacks b'/' resource h) refl,
  rw
      (
        strip_prefix-append "/api/v1/" (resource +++ String.◌∷◌ "/" rest),
        split-append b'/' "/" resource rest refl h,
      )
      refl,
)

abbrev pub IsListed : String → Type 0
IsListed resource =
    (resource ≡ "accounts") ⊎ (resource ≡ "payees") ⊎ (resource ≡ "transfers") ⊎ (resource ≡ "me")

abbrev pub IsUnlisted : String → Type 0
IsUnlisted resource =
    (resource ≢ "accounts") × (resource ≢ "payees") × (resource ≢ "transfers") × (resource ≢ "me")

contains-IsListed :
    (resource : String)
    → (IsListed resource × (contains resource allowed_proxy_resources ≡ true))
      ⊎ (IsUnlisted resource × (contains resource allowed_proxy_resources ≡ false))
unfolding contains
contains-IsListed resource = ground (
  arith,
  eq_iff "accounts" resource,
  eq_iff "payees" resource,
  eq_iff "transfers" resource,
  eq_iff "me" resource,
)

-- The answer to a request for a resource: it goes on, which gives `passed`; or it is refused, with the
-- world as it was.
abbrev pub IsRouted :
    String → Request → World → Result (Unit {0}) × World → Result (Unit {0}) × World → Type 0
IsRouted resource req w passed r =
    (IsListed resource
      × (session : SessionPayload) × (req.fernbank_session ≡ some session)
      × (r ≡ passed))
    ⊎ (IsListed resource
        × (req.fernbank_session ≡ none)
        × (r ≡ (throws (http 401 (object (problem "session-required" "No active session"))), w)))
    ⊎ (IsUnlisted resource
        × (r ≡ (throws (http 404 (object (problem "not-found" "Not found"))), w)))

forward-IsRouted :
    (env : Env) (resource suffix : String) (req : Request) (w : World)
    → IsRouted resource req w
        (forward_allowed env resource suffix req.query req w)
        (forward env resource suffix req.query req w)
unfolding forward forward_allowed require_session require
forward-IsRouted env resource suffix req w = elim (contains-IsListed resource) [
  | inr (unlisted, e) ↦ inr (inr (unlisted, rw e refl))
  | inl (listed, e) ↦ elim (Option-cases req.fernbank_session) [
    | inl absent ↦ inr (inl (listed, absent, rw (e, absent, require) refl))
    | inr (session, present) ↦ inl (listed, session, present, rw e refl)
  ]
]

-- The first request asks for a path of one part behind /api/v1/, the second for one with more. Each is
-- handed on for that resource, the second with the parts behind it, exactly if the resource is accounts,
-- payees, transfers or me and the request has a session. With no session it gets 401, and for every
-- other resource 404; then nothing is sent and nothing is changed.
pub proxy-IsRouted :
    (env : Env) (resource rest : String) (parts : List String) (bare deep : Request) (w : World)
    → Lacks b'/' resource
    → bare.path ≡ "/api/v1/" +++ resource
    → deep.path ≡ "/api/v1/" +++ resource +++ String.◌∷◌ "/" rest
    → IsRouted resource bare w
        (forward_allowed env resource "" bare.query bare w)
        (proxy_resource env bare w)
      × IsRouted resource deep w
          (forward_allowed env resource ("/" +++ join "/" parts) deep.query deep w)
          (proxy_sub_path env parts deep w)
unfolding proxy_resource proxy_sub_path
proxy-IsRouted env resource rest parts bare deep w h at_bare at_deep =
    let (whole, first) = resource_from_path_lem resource rest h in
    let suffix = "/" +++ join "/" parts in
    (
      subst
          (λ found.
            IsRouted resource bare w (forward_allowed env resource "" bare.query bare w)
              (forward env found "" bare.query bare w))
          (sym (ap resource_from_path at_bare ∙ whole)) (forward-IsRouted env resource "" bare w),
      subst
          (λ found.
            IsRouted resource deep w (forward_allowed env resource suffix deep.query deep w)
              (forward env found suffix deep.query deep w))
          (sym (ap resource_from_path at_deep ∙ first))
          (forward-IsRouted env resource suffix deep w),
    )
