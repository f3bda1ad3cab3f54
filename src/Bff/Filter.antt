-- ===== src/Bff/Filter.antt =====
-- What every request passes: the exception filter (bff/src/common/problem-detail.filter.ts), the
-- tracker of the throttler (bff/src/rate-limit/throttler-options.ts) and the order of
-- bff/src/app.module.ts: the session middleware, the CSRF guard, then the handler inside the
-- interceptor, and the filter on what any of them throws. The throttler itself is a package.
pub mod Answers
use fernbank.Base.{ℕ, List, String, Option, none, some, or_else}
use fernbank.Base.Dict.{Dict, lookup}
use fernbank.Base.Text.{◌+++◌}
use fernbank.Bff.Http.{
  ProblemDetailBody, ExceptionResponse, problem, with_status, Exception, upstream, http, plain,
  object, text, Request, Response, Result, ok, throws, SessionPayload,
}
use fernbank.Bff.World.{Env, World, M}
use fernbank.Bff.Session.{session_context, intercept}
use fernbank.Bff.Csrf.{can_activate}
use fernbank.Bff.Common.{first_value}

-- The status of the response.
unfoldable pub status_of : Exception → ℕ
status_of (upstream status body) = status
status_of (http status response) = status
status_of (plain message) = 500

abbrev body_of_response : ℕ → ExceptionResponse → ProblemDetailBody
body_of_response status (object body) = with_status status body
body_of_response status (text message) = with_status status (problem "bff-error" message)

unfoldable pub body_of : Exception → ProblemDetailBody
body_of (upstream status body) = with_status status body
body_of (http status response) = body_of_response status response
body_of (plain message) = with_status 500 (problem "internal-error" "An unexpected error occurred")

-- The correlation id of the request's header, which the filter takes for one text.
unfoldable pub problem_answer : Exception → Request → ℕ × ProblemDetailBody
unfolding status_of body_of
problem_answer exception req = (
  status_of exception,
  record (body_of exception) {
    correlation_id = first_value (lookup "x-correlation-id" req.headers);
  },
)

-- `req.fernbankSession?.sessionId ?? req.ip ?? 'unknown'`.
abbrev session_id_of : Option SessionPayload → Option String
session_id_of none = none
session_id_of (some session) = some session.session_id

unfoldable pub tracker : Request → String
tracker req = or_else (session_id_of req.fernbank_session) (or_else req.ip "unknown")

-- What the browser gets: a handler's result, or a problem document with its status.
pub data Answer (A : Type 0) : Type 0 where
  result : A → Answer A
  problem_document : ℕ → ProblemDetailBody → Answer A

abbrev filtered : {A : Type 0} → Request → Result A × World → Answer A × World
filtered req (ok a, w) = (result a, w)
filtered req (throws e, w) = (problem_document (problem_answer e req).0 (problem_answer e req).1, w)

abbrev guarded : {A : Type 0} → Result (Unit {0}) → M A → M A
guarded (ok u) handler w = handler w
guarded (throws e) handler w = (throws e, w)

unfoldable pub serve : {A : Type 0} → Env → (Request → M A) → Request → World → Answer A × World
unfolding problem_answer
serve env handler req w =
    let known = session_context env req in
    filtered known (guarded (can_activate known) (intercept env known (handler known)) w)
