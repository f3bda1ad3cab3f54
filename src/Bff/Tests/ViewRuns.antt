-- ===== src/Bff/Tests/ViewRuns.antt =====
-- The theorems about the dashboard and the notifications, at the fixture.
use fernbank.Base.{
  ◌≡◌, refl, Bool, true, false, List, [], ◌∷◌, ◌++◌, String, Option, none, some, map,
}
use fernbank.Base.Dict.{lookup}
use fernbank.Bff.Http.{Result, ok, throws}
use fernbank.Bff.Dashboard.{
  statement_call, AccountResponse, StatementEntryResponse, CursorPage, DashboardCodec,
}
use fernbank.Bff.Notifications.{PollerState, absorb, event, reversed, seed_account}
use fernbank.Bff.Notifications.Delivery.{absorb-absorb, absorb-seed_account}
use fernbank.Bff.Tests.Fixture.{server, answers, world, session}

abbrev account : AccountResponse
account = record {
  id = some "a1";
  account_number = none;
  type = none;
  status = none;
  balance = none;
  created_at = none;
}

abbrev entry : String → StatementEntryResponse
entry id = record {
  id = some id;
  transaction_id = none;
  created_at = none;
  amount = none;
  description = none;
}

abbrev codec : DashboardCodec
codec = record {
  me = λ body. none;
  accounts = λ body. none;
  page = λ body. some (record { entries = none; next_cursor = none; has_next = none });
  days_before = λ now days. "from";
}

-- A backend that fails every statement.
abbrev settled : List (Result (Option CursorPage))
settled = (statement_call (server (answers 503)) codec session "from" "c" account world).0 ∷ []

abbrev is_empty_page : Result (Option CursorPage) → Bool
is_empty_page (ok none) = true
is_empty_page (ok (some page)) = false
is_empty_page (throws e) = false

abbrev poller : PollerState
poller = record { last_seen_by_account = []; emitted = [] }

abbrev first_round : PollerState
first_round = absorb "a1" (entry "e1" ∷ []) poller

absorb-absorb_example :
    (absorb "a1" ((entry "e3" ∷ entry "e2" ∷ []) ++ (entry "e1" ∷ [])) first_round).emitted
    ≡ first_round.emitted ++ map (event "a1") (reversed (entry "e3" ∷ entry "e2" ∷ []))
absorb-absorb_example =
    absorb-absorb "a1" "e1" (entry "e3" ∷ entry "e2" ∷ []) [] [] (entry "e1") poller refl refl
      (refl, (refl, tt))

absorb-seed_account_example :
    ((absorb "a1"
        ((entry "e3" ∷ entry "e2" ∷ []) ++ (entry "e1" ∷ []))
        (seed_account "a1" (entry "e1" ∷ []) poller)).emitted
      ≡ [] ++ map (event "a1") (reversed (entry "e3" ∷ entry "e2" ∷ [])))
    × ((absorb "a1"
          ((entry "e3" ∷ entry "e2" ∷ []) ++ (entry "e1" ∷ []))
          (absorb "a1" (entry "e1" ∷ []) (seed_account "a1" [] poller))).emitted
        ≡ [] ++ map (event "a1") (reversed (entry "e3" ∷ entry "e2" ∷ [])))
unfolding lookup
absorb-seed_account_example =
    absorb-seed_account "a1" "e1" (entry "e3" ∷ entry "e2" ∷ []) [] [] (entry "e1") poller refl refl
      (refl, (refl, tt)) refl
