-- ===== src/Bff/Tests/SessionRuns.antt =====
-- The theorems about tokens, sessions and requests to the backend, at the fixture.
use fernbank.Base.{
  ◌+◌, ◌≤◌, ◌≡◌, refl, ◌⊎◌, List, [], ◌∷◌, String, none, some, leb, not, arith, eq_iff,
}
use fernbank.Base.Dict.{lookup}
use fernbank.Bff.Http.{ok, throws}
use fernbank.Bff.Crypto.{encrypt, decrypt}
use fernbank.Bff.Crypto.RoundTrip.{decrypt-encrypt}
use fernbank.Bff.World.{pure}
use fernbank.Bff.TokenCache.{get_current_refresh_token}
use fernbank.Bff.TokenCache.Machine.{
  Machine, Event, resolves, forces, replies, finishes, invalidates, run,
}
use fernbank.Bff.TokenCache.SingleFlight.{IsSingle, run-IsSingle}
use fernbank.Bff.TokenCache.Requests.{count_sent, is_authorized, all_requests}
use fernbank.Bff.BackendClient.{AuthenticatedRequestOptions, do_request, request_raw}
use fernbank.Bff.BackendClient.Laws.{
  do_request-status, request_raw_bounds, made, reply_to, reply_status, status_of, is_ok,
}
use fernbank.Bff.Session.{intercept, session_cookie_name, csrf_cookie_name}
use fernbank.Bff.Session.Cookies.{Holds, last_write}
use fernbank.Bff.Session.Sync.{intercept-Holds, current_payload}
use fernbank.Bff.Csrf.{can_activate, csrf_mismatch}
use fernbank.Bff.Csrf.Guard.{can_activate_iff, Passes}
use fernbank.Bff.Auth.{
  AuthCodec, BackendAuthResult, authenticated, start_session_if_authenticated, logout,
}
use fernbank.Bff.Auth.Sessions.{
  Answered, start_session_if_authenticated-Answered, logout-Forgotten, Forgotten,
}
use fernbank.Bff.Tests.Fixture.{
  server, server-CookieLaws, open_crypto, open_crypto-CryptoLaws, answers, reply, shared_state,
  world, session, browser_request, iv,
}

abbrev idle : Machine
idle = record { shared = shared_state; flights = [] }

-- Two requests join one refresh, which comes back; a third forces another.
abbrev history : List Event
history =
    resolves "id-1" "refresh-0"
    ∷ resolves "id-1" "refresh-0"
    ∷ replies 0 (reply 200 "h.late.s")
    ∷ forces "id-1" "refresh-0"
    ∷ finishes 0
    ∷ invalidates "id-2"
    ∷ []

run-IsSingle_example : IsSingle "id-1" (run (server (answers 200)) idle history)
unfolding lookup
run-IsSingle_example =
    run-IsSingle (server (answers 200)) "id-1" idle history (ground (arith, eq_iff "id-2" "id-1"))
      refl

abbrev options : AuthenticatedRequestOptions
options = record {
  session = session;
  method = "GET";
  path = "/api/v1/me";
  query = none;
  body = none;
  extra_headers = [];
  correlation_id = some "c";
}

request_raw_bounds_example :
    (count_sent is_authorized (request_raw (server (answers 401)) options world).1
      ≤ count_sent is_authorized world + 2)
    × (count_sent all_requests (request_raw (server (answers 401)) options world).1
        ≤ count_sent all_requests world + 4)
request_raw_bounds_example = request_raw_bounds (server (answers 401)) options world

do_request-status_example :
    ((do_request (server (answers 503)) options "t" world).1.sent
      ≡ made (server (answers 503)) options "t" world ∷ [])
    × (status_of (do_request (server (answers 503)) options "t" world).0
        ≡ some (reply_status (reply_to (server (answers 503)) options "t" world).0))
    × (is_ok (do_request (server (answers 503)) options "t" world).0
        ≡ not (leb 400 (reply_status (reply_to (server (answers 503)) options "t" world).0)))
do_request-status_example = do_request-status (server (answers 503)) options "t" world

decrypt-encrypt_example : decrypt open_crypto [] (encrypt open_crypto [] iv session) ≡ some session
decrypt-encrypt_example = decrypt-encrypt open_crypto [] iv session open_crypto-CryptoLaws refl

intercept-Holds_example :
    ((intercept {A = String} (server (answers 200)) browser_request (pure "done") world).0
      ≡ ok "done")
    × (("refresh-1" ≡ session.refresh_token)
        ⊎ Holds
            (server (answers 200))
            (current_payload session "refresh-1")
            (intercept {A = String} (server (answers 200)) browser_request (pure "done") world).1)
unfolding get_current_refresh_token lookup
intercept-Holds_example =
    intercept-Holds (server (answers 200)) (server-CookieLaws (answers 200)) browser_request
      (pure "done") world world "done" session "refresh-1" refl refl refl refl refl

can_activate_iff_example :
    ((can_activate browser_request ≡ ok tt) × Passes browser_request)
    ⊎ ((can_activate browser_request ≡ throws csrf_mismatch) × ¬ Passes browser_request)
can_activate_iff_example = can_activate_iff browser_request

abbrev signed_in : BackendAuthResult
signed_in = record {
  status = authenticated;
  access_token = some "h.late.s";
  refresh_token = some "refresh-1";
  mfa_token = none;
}

start_session_if_authenticated-Answered_example :
    Answered
      (server (answers 200))
      (some (record { access_token = "h.late.s"; refresh_token = "refresh-1" }))
      none
      world
      (start_session_if_authenticated (server (answers 200)) signed_in world)
start_session_if_authenticated-Answered_example =
    start_session_if_authenticated-Answered (server (answers 200)) signed_in world
      (server-CookieLaws (answers 200))

abbrev codec : AuthCodec
codec = record {
  auth_result = λ body. signed_in;
  opaque = λ body. body;
  opaque_json = λ body. some body;
  step_up = λ body. some (record { access_token = body });
}

logout-Forgotten_example :
    ((logout (server (answers 500)) codec browser_request world).0 ≡ ok tt)
    × (last_write session_cookie_name
          (logout (server (answers 500)) codec browser_request world).1.response.cookie_writes
        ≡ some none)
    × (last_write csrf_cookie_name
          (logout (server (answers 500)) codec browser_request world).1.response.cookie_writes
        ≡ some none)
    × Forgotten (some session) (logout (server (answers 500)) codec browser_request world).1.shared
logout-Forgotten_example = logout-Forgotten (server (answers 500)) codec browser_request world
