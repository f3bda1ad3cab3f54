-- ===== src/Bff/Notifications/Subscribers.antt =====
-- notification-poller.service.ts: `subscribe` and the teardown of what it returns. A poller's state is
-- an object that the map and the closures of its streams share, so it stands in a heap. A stream is
-- what one call of `subscribe` returns; the framework subscribes to it once and ends it once, when the
-- browser goes.
pub mod Tracking
pub mod Teardown
pub mod Refinement
use fernbank.Base.{
  ℕ, suc, ◌+◌, ◌-◌, Bool, true, false, List, [], ◌∷◌, String, Option, none, some, leb, eqb,
  if◌then◌else◌,
}
use fernbank.Base.Dict.{Dict, lookup, insert, remove}

-- `is_running` says that the interval has been set and not cleared. `refCount` does not go below 0
-- here; the source only tests it for being at most 0.
pub record Poller : Type 0 where
  pub session_id : String
  pub ref_count : ℕ
  pub is_running : Bool

-- An open stream, with the variables that its teardown closes over.
pub record Stream : Type 0 where
  pub id : ℕ
  pub active_state : ℕ
  pub session_id : String

pub record Pollers : Type 0 where
  pub pollers : Dict ℕ
  pub heap : ℕ → Poller
  pub next_address : ℕ
  pub open_streams : List Stream
  pub next_stream : ℕ

abbrev pub update : (ℕ → Poller) → ℕ → Poller → ℕ → Poller
update heap address poller other = if eqb other address then poller else heap other

-- The stream of a call that has found or made its poller.
unfoldable pub join : String → ℕ → Pollers → Pollers
join session_id address s = record s {
  heap =
      update s.heap address
        (record (s.heap address) { ref_count = (s.heap address).ref_count + 1 });
  open_streams =
      record { id = s.next_stream; active_state = address; session_id = session_id }
      ∷ s.open_streams;
  next_stream = suc s.next_stream;
}

-- `if (!state) { … }`: a new poller whose interval runs.
unfoldable pub create : String → Pollers → Pollers
create session_id s = record s {
  pollers = insert session_id s.next_address s.pollers;
  heap =
      update s.heap s.next_address
        (record { session_id = session_id; ref_count = 0; is_running = true });
  next_address = suc s.next_address;
}

unfoldable pub subscribe_at : Option ℕ → String → Pollers → Pollers
unfolding join create
subscribe_at (some address) session_id s = join session_id address s
subscribe_at none session_id s = join session_id s.next_address (create session_id s)

unfoldable pub subscribe : String → Pollers → Pollers
unfolding subscribe_at
subscribe session_id s = subscribe_at (lookup session_id s.pollers) session_id s

unfoldable pub find_stream : ℕ → List Stream → Option Stream
find_stream id [] = none
find_stream id (t ∷ ts) = let later = find_stream id ts in if eqb t.id id then some t else later

unfoldable pub drop_stream : ℕ → List Stream → List Stream
drop_stream id [] = []
drop_stream id (t ∷ ts) = let later = drop_stream id ts in if eqb t.id id then ts else t ∷ later

-- `activeState.refCount--` and what depends on it.
unfoldable pub release : Stream → Pollers → Pollers
release t s =
    let left = (s.heap t.active_state).ref_count - 1 in
    if leb left 0
    then record s {
      pollers = remove t.session_id s.pollers;
      heap =
          update s.heap t.active_state
            (record (s.heap t.active_state) { ref_count = left; is_running = false });
    }
    else record s {
      heap = update s.heap t.active_state (record (s.heap t.active_state) { ref_count = left });
    }

-- The teardown of a stream, if it is open.
unfoldable pub tear_down : ℕ → Pollers → Pollers
unfolding release drop_stream find_stream
tear_down id s = elim (find_stream id s.open_streams) [
  | none ↦ s
  | some t ↦ record (release t s) { open_streams = drop_stream id s.open_streams }
]

pub data Event : Type 0 where
  opens : String → Event
  closes : ℕ → Event

unfoldable pub step : Pollers → Event → Pollers
unfolding subscribe tear_down
step s (opens session_id) = subscribe session_id s
step s (closes id) = tear_down id s

unfoldable pub run : Pollers → List Event → Pollers
unfolding step
run s [] = s
run s (e ∷ es) = run (step s e) es

-- The service when the server starts; no address is in use.
abbrev pub started : Pollers
started = record {
  pollers = [];
  heap = λ address. record { session_id = ""; ref_count = 0; is_running = false };
  next_address = 0;
  open_streams = [];
  next_stream = 0;
}
