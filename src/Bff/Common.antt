-- ===== src/Bff/Common.antt =====
-- What controllers read of a request: bff/src/common/correlation.ts and client-ip.ts.
use fernbank.Base.{[], ◌∷◌, String, Option, none, some, or_else, head?}
use fernbank.Base.Dict.{lookup}
use fernbank.Base.Text.{split, trim, truthy}
use fernbank.Bff.Http.{HeaderValue, one, many, Request}
use fernbank.Bff.World.{Env, M, pure, draw}

-- `Array.isArray(header) ? header[0] : header`.
abbrev pub first_value : Option HeaderValue → Option String
first_value none = none
first_value (some (one value)) = some value
first_value (some (many values)) = head? values

abbrev given_or_drawn : Env → Option String → M String
given_or_drawn env none = draw env.uuid
given_or_drawn env (some value) = pure value

unfoldable pub extract_correlation_id : Env → Request → M String
extract_correlation_id env req =
    given_or_drawn env (truthy (first_value (lookup "x-correlation-id" req.headers)))

-- `value?.split(',')[0]?.trim()`.
abbrev first_hop : Option String → Option String
first_hop none = none
first_hop (some value) = elim (split b',' value) [ [] ↦ none | hop ∷ hops ↦ some (trim hop) ]

unfoldable pub extract_client_ip : Request → String
unfolding split trim
extract_client_ip req =
    or_else (truthy (first_hop (first_value (lookup "x-forwarded-for" req.headers))))
      (or_else req.ip "")
