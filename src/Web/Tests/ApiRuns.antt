-- ===== src/Web/Tests/ApiRuns.antt =====
-- The theorem about the CSRF token's header, for a browser with three cookies.
use fernbank.Base.{◌≡◌, refl, [], ◌∷◌, none, some, All}
use fernbank.Base.Dict.{lookup}
use fernbank.Base.Text.{◌+++◌, join, strip_prefix}
use fernbank.Base.Text.Laws.{Lacks, lacks→Lacks}
use fernbank.Web.Api.{Browser, api_request, csrf_cookie_prefix, csrf_header_name}
use fernbank.Web.Api.Token.{api_request-token}

abbrev browser : Browser
browser = record {
  cookie = some "a=1; fernbank_bff_csrf=t; b=2";
  correlation_id = "c";
  idempotency_key = "k";
  url = λ path query. path;
  encode_uri_component = λ s. s;
  upper_case = λ s. s;
  show_status = λ n. "";
  parse_problem = λ s. none;
}

entries_whole : All (Lacks b';') ("a=1" ∷ (csrf_cookie_prefix +++ "t") ∷ "b=2" ∷ [])
entries_whole = (
  lacks→Lacks b';' "a=1" refl,
  (lacks→Lacks b';' (csrf_cookie_prefix +++ "t") refl, (lacks→Lacks b';' "b=2" refl, tt)),
)

api_request-token_example :
    lookup csrf_header_name
      (api_request browser "post" "/api/v1/transfers" [] [] (some "{}")).headers
    ≡ some "t"
unfolding join strip_prefix
api_request-token_example =
    api_request-token browser "t" ("a=1" ∷ []) ("b=2" ∷ []) "post" "/api/v1/transfers" [] []
      (some "{}") refl (refl, tt) entries_whole refl refl
