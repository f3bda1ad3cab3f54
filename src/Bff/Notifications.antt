-- ===== src/Bff/Notifications.antt =====
-- bff/src/notifications/notification-poller.service.ts: the rounds of a poller. Its state is what the
-- callbacks change: the newest entry seen of each account, and the events given to the subject.
-- Reference counts, intervals and streams are in its child `Subscribers`.
pub mod Delivery
pub mod Subscribers
use fernbank.Base.{
  Bool, List, [], ◌∷◌, ◌++◌, String, Option, none, some, or_else, head?, ◌==◌, if◌then◌else◌, map,
}
use fernbank.Base.Dict.{Dict, lookup, insert}
use fernbank.Base.Text.{truthy}
use fernbank.Bff.Http.{Result, ok, throws, SessionPayload}
use fernbank.Bff.World.{Env, World, M}
use fernbank.Bff.BackendClient.{request_json}
use fernbank.Bff.Dashboard.{
  AccountResponse, StatementEntryResponse, CursorPage, DashboardCodec, get_options, statement_path,
}

pub record NotificationEvent : Type 0 where
  pub account_id : String
  pub entry : StatementEntryResponse

-- `emitted` has the oldest event first.
pub record PollerState : Type 0 where
  pub last_seen_by_account : Dict String
  pub emitted : List NotificationEvent

-- `entry.id === stopAtId`.
abbrev pub has_id : String → StatementEntryResponse → Bool
has_id id entry = elim entry.id [ none ↦ Bool.false | some other ↦ other == id ]

unfoldable pub take_until_id : List StatementEntryResponse → String → List StatementEntryResponse
take_until_id [] stop_at_id = []
take_until_id (entry ∷ entries) stop_at_id =
    let rest = take_until_id entries stop_at_id in
    if has_id stop_at_id entry then [] else entry ∷ rest

unfoldable pub reversed : List StatementEntryResponse → List StatementEntryResponse
reversed [] = []
reversed (entry ∷ entries) = reversed entries ++ (entry ∷ [])

-- `lastSeenId ? takeUntilId(entries, lastSeenId) : []`.
unfoldable pub new_entries :
    Option String → List StatementEntryResponse → List StatementEntryResponse
unfolding take_until_id
new_entries none entries = []
new_entries (some last_seen_id) entries = take_until_id entries last_seen_id

abbrev pub id_of : Option StatementEntryResponse → Option String
id_of none = none
id_of (some entry) = entry.id

abbrev pub remember : String → Option String → Dict String → Dict String
remember account_id none seen = seen
remember account_id (some entry_id) seen = insert account_id entry_id seen

-- `{ accountId: account.id, entry }`.
abbrev pub event : String → StatementEntryResponse → NotificationEvent
event account_id entry = record { account_id = account_id; entry = entry }

-- The body of the loop in `poll` behind the await.
unfoldable pub absorb : String → List StatementEntryResponse → PollerState → PollerState
unfolding new_entries reversed
absorb account_id entries state = record {
  last_seen_by_account =
      remember account_id (truthy (id_of (head? entries))) state.last_seen_by_account;
  emitted =
      state.emitted
      ++ map (event account_id)
          (reversed (new_entries (truthy (lookup account_id state.last_seen_by_account)) entries));
}

-- An error ends the round, and what it had done stays; so does reading a field of undefined.
abbrev after_page :
    String
    → (PollerState → World → PollerState × World)
    → PollerState
    → Result (Option CursorPage) × World
    → PollerState × World
after_page account_id continue state (ok (some page), w) =
    continue (absorb account_id (or_else page.entries []) state) w
after_page account_id continue state (ok none, w) = (state, w)
after_page account_id continue state (throws e, w) = (state, w)

unfoldable pub list_accounts :
    Env → DashboardCodec → SessionPayload → M (Option (List AccountResponse))
list_accounts env codec session =
    request_json env codec.accounts (get_options session "/api/v1/accounts" none none)

-- The call of `latestEntry`; the entry is the first of the page.
unfoldable pub latest_entry : Env → DashboardCodec → SessionPayload → String → M (Option CursorPage)
latest_entry env codec session account_id =
    request_json env codec.page
      (get_options session (statement_path (some account_id)) (some (("pageSize", "1") ∷ [])) none)

-- The loop of `poll` over the accounts.
unfoldable pub poll_accounts :
    Env
    → DashboardCodec
    → SessionPayload
    → List AccountResponse
    → PollerState
    → World
    → PollerState × World
unfolding absorb
poll_accounts env codec session [] state w = (state, w)
poll_accounts env codec session (account ∷ rest) state w =
    let continue = poll_accounts env codec session rest in
    elim (truthy account.id) [
      | none ↦ continue state w
      | some account_id ↦ after_page account_id continue state (
          request_json env codec.page
            (get_options session (statement_path (some account_id)) (some (("pageSize", "5") ∷ []))
              none)
            w)
    ]

abbrev after_accounts :
    (List AccountResponse → PollerState → World → PollerState × World)
    → PollerState
    → Result (Option (List AccountResponse)) × World
    → PollerState × World
after_accounts loop state (ok (some accounts), w) = loop accounts state w
after_accounts loop state (ok none, w) = (state, w)
after_accounts loop state (throws e, w) = (state, w)

unfoldable pub poll :
    Env → DashboardCodec → SessionPayload → PollerState → World → PollerState × World
unfolding poll_accounts list_accounts
poll env codec session state w =
    after_accounts (poll_accounts env codec session) state (list_accounts env codec session w)

-- What `seedLastSeen` does with the newest entry of an account.
unfoldable pub seed_account : String → List StatementEntryResponse → PollerState → PollerState
seed_account account_id entries state = record state {
  last_seen_by_account =
      remember account_id (truthy (id_of (head? entries))) state.last_seen_by_account;
}

abbrev after_latest :
    String
    → (PollerState → World → PollerState × World)
    → PollerState
    → Result (Option CursorPage) × World
    → PollerState × World
after_latest account_id continue state (ok (some page), w) =
    continue (seed_account account_id (or_else page.entries []) state) w
after_latest account_id continue state (ok none, w) = continue state w
after_latest account_id continue state (throws e, w) = continue state w

-- The loop of `seedLastSeen` over the accounts. The calls of `Promise.all` run one behind the other
-- here; each callback stores its entry when its own call comes back, also after another has failed.
unfoldable seed_accounts :
    Env
    → DashboardCodec
    → SessionPayload
    → List AccountResponse
    → PollerState
    → World
    → PollerState × World
unfolding seed_account latest_entry
seed_accounts env codec session [] state w = (state, w)
seed_accounts env codec session (account ∷ rest) state w =
    let continue = seed_accounts env codec session rest in
    elim (truthy account.id) [
      | none ↦ continue state w
      | some account_id ↦
          after_latest account_id continue state (latest_entry env codec session account_id w)
    ]

unfoldable seed_last_seen :
    Env → DashboardCodec → SessionPayload → PollerState → World → PollerState × World
unfolding seed_accounts list_accounts
seed_last_seen env codec session state w =
    after_accounts (seed_accounts env codec session) state (list_accounts env codec session w)
