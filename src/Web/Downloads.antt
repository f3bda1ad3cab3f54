-- ===== src/Web/Downloads.antt =====
-- frontend/src/lib/env.ts, correlation.ts, bff-dashboard.ts and download.ts of frontend/src/lib/api: the
-- calls that do not go through `apiFetch`.
use fernbank.Base.{
  Bool, not, ◌&&◌, [], ◌∷◌, String, Option, none, some, or_else, ltb, if◌then◌else◌,
}
use fernbank.Base.Dict.{Dict}
use fernbank.Base.Text.{is_empty, truthy}
use fernbank.Web.Api.{Browser, FetchReply, ApiResult, returns, throws, rejects, from_response}

-- `BFF_BASE_URL` from the two variables of the environment, none where the module throws.
abbrev required : Option String → Option String
required value = value

unfoldable pub bff_base_url : Option String → Option String → Option String
bff_base_url vercel next_public_bff_base_url = elim (truthy vercel) [
  | none ↦ required next_public_bff_base_url
  | some set ↦ some (or_else next_public_bff_base_url "")
]

-- `origin` is `window.location.origin`.
unfoldable pub resolve_bff_base : String → String → String
resolve_bff_base base_url origin = if is_empty base_url then origin else base_url

unfoldable pub backend_health_url : Option String → Option String
backend_health_url value = truthy value

abbrev pub correlation_id_header : String
correlation_id_header = "X-Correlation-Id"

abbrev dashboard_headers : Browser → Dict String
dashboard_headers b = (correlation_id_header, b.correlation_id) ∷ []

abbrev is_ok : FetchReply → Bool
is_ok reply = ltb 199 reply.status && ltb reply.status 300

abbrev of_json : {A : Type 0} → Option A → ApiResult A
of_json none = rejects
of_json (some a) = returns (some a)

-- `getDashboard`: the headers of its request are `dashboard_headers`, and this is what it makes of the
-- reply, none where `fetch` rejects.
unfoldable pub get_dashboard :
    {A : Type 0}
    → Browser
    → (String → Dict String → Option FetchReply)
    → (String → Option A)
    → ApiResult A
unfolding from_response
get_dashboard b fetch json = elim (fetch (b.url "/bff/dashboard" []) (dashboard_headers b)) [
  | none ↦ rejects
  | some reply ↦
      if not (is_ok reply) then throws (from_response b reply) else of_json (json reply.body)
]

-- A click on a link to a file.
pub record Click : Type 0 where
  pub href : String
  pub download : String

-- `object_url` is `URL.createObjectURL` of the reply's body; the URL is revoked behind the click.
unfoldable pub download_file :
    Browser → (String → Option FetchReply) → (String → String) → String → String → ApiResult Click
unfolding from_response
download_file b fetch object_url path filename = elim (fetch (b.url path [])) [
  | none ↦ rejects
  | some reply ↦
      if not (is_ok reply)
      then throws (from_response b reply)
      else returns (some (record { href = object_url reply.body; download = filename }))
]
