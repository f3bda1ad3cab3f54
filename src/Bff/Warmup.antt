-- ===== src/Bff/Warmup.antt =====
-- bff/src/warmup/warmup.controller.ts and bff/src/common/health.controller.ts. Log lines are left out.
use fernbank.Base.{
  suc, Bool, false, ◌&&◌, [], ◌∷◌, String, Option, none, some, ◌==◌, eqb, if◌then◌else◌,
}
use fernbank.Base.Text.{◌+++◌}
use fernbank.Bff.Http.{HttpRequest, HttpReply, Request, Exception, http, object, problem}
use fernbank.Bff.World.{Env, M, ◌>>=◌, ◌>>◌, pure, throw, modify, request}
use fernbank.Bff.TokenCache.{correlation_id_header}
use fernbank.Bff.Common.{extract_correlation_id}

pub data HealthStatus : Type 0 where
  up : HealthStatus

abbrev health : HealthStatus
health = up

abbrev user_agent : String
user_agent =
    "Mozilla/5.0 (Macintosh; Intel Mac OS X 10_15_7) AppleWebKit/537.36 (KHTML, like Gecko) Chrome/128.0.0.0 Safari/537.36"

unfoldable pub health_request : Env → String → HttpRequest
health_request env correlation_id = record {
  method = "GET";
  url = env.config.backend_internal_base_url +++ "/actuator/health";
  query = none;
  body = none;
  headers =
      ("User-Agent", user_agent)
      ∷ ("Accept", "application/json, text/plain, */*")
      ∷ (correlation_id_header, correlation_id)
      ∷ [];
}

abbrev pub service_unavailable : Exception
service_unavailable =
    http 503 (object (problem "service-unavailable" "Backend is still starting up"))

abbrev is_up_text : Option String → Bool
is_up_text none = false
is_up_text (some status) = status == "UP"

-- `response.status === 200 && response.data?.status === 'UP'`; `read_status` reads the reply's field.
unfoldable pub is_up : (String → Option String) → Option HttpReply → Bool
is_up read_status none = false
is_up read_status (some reply) = eqb reply.status 200 && is_up_text (read_status reply.body)

-- An error of the request, such as the time limit of 170 seconds, is no reply.
unfoldable pub check : Env → (String → Option String) → Request → M HealthStatus
unfolding health_request is_up
check env read_status req = do
  modify (λ s. record s { attempt_count = suc s.attempt_count })
  correlation_id ← extract_correlation_id env req
  reply ← request env (health_request env correlation_id)
  if is_up read_status reply then pure up else throw service_unavailable
