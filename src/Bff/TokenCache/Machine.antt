-- ===== src/Bff/TokenCache/Machine.antt =====
-- access-token-cache.service.ts under the event loop: any order of the atomic parts of its methods.
-- A flight is a refresh that has been sent; it is settled once its `.then` callback has run, and
-- leaves when its `.finally` callback has.
use fernbank.Base.{
  ℕ, ◌&&◌, not, Bool, true, false, List, [], ◌∷◌, String, Option, none, some, eqb, if◌then◌else◌,
}
use fernbank.Base.Dict.{lookup}
use fernbank.Base.Int.{ℤ}
use fernbank.Bff.Http.{HttpReply, TokenPair, Result, ok, throws}
use fernbank.Bff.World.{Shared, Env}
use fernbank.Bff.TokenCache.{
  is_fresh, current_or_cookie, seed, invalidate, overwrite_elevated, sweep, drop_entry,
  begin_refresh, store_entry, release_lock, refresh_outcome,
}

pub record Flight : Type 0 where
  pub promise : ℕ
  pub session_id : String
  pub refresh_token : String
  pub settled : Bool

pub record Machine : Type 0 where
  pub shared : Shared
  pub flights : List Flight

-- `replies` is the `.then` callback of a promise, with what the network gave; `finishes` is its
-- `.finally` callback; `ticks` sets the clock.
pub data Event : Type 0 where
  resolves : (session_id cookie_refresh_token : String) → Event
  forces : (session_id cookie_refresh_token : String) → Event
  replies : ℕ → Option HttpReply → Event
  finishes : ℕ → Event
  seeds : String → TokenPair → Event
  elevates : (session_id access_token : String) → ℤ → Event
  invalidates : String → Event
  sweeps : Event
  ticks : ℤ → Event

-- The flight of a promise whose `.then` callback has run, or has not.
abbrev pub is_flight : Bool → ℕ → Flight → Bool
is_flight settled p f = (if settled then f.settled else not f.settled) && eqb f.promise p

unfoldable pub find_flight : Bool → ℕ → List Flight → Option Flight
find_flight settled p [] = none
find_flight settled p (f ∷ fs) =
    let later = find_flight settled p fs in if is_flight settled p f then some f else later

unfoldable pub settle_flight : ℕ → List Flight → List Flight
settle_flight p [] = []
settle_flight p (f ∷ fs) =
    (if eqb f.promise p then record f { settled = true } else f) ∷ settle_flight p fs

-- The first settled flight of a promise leaves.
unfoldable pub drop_flight : ℕ → List Flight → List Flight
drop_flight p [] = []
drop_flight p (f ∷ fs) =
    let later = drop_flight p fs in if is_flight true p f then fs else f ∷ later

unfoldable pub join_or_start : String → String → Machine → Machine
join_or_start session_id refresh_token m = elim (lookup session_id m.shared.refresh_locks) [
  | some in_flight ↦ m
  | none ↦ record {
    shared = begin_refresh session_id m.shared;
    flights =
        record {
          promise = m.shared.next_promise;
          session_id = session_id;
          refresh_token = refresh_token;
          settled = false;
        }
        ∷ m.flights;
  }
]

unfoldable pub resolve_step : Env → String → String → Machine → Machine
unfolding join_or_start
resolve_step env session_id cookie m = elim (lookup session_id m.shared.cache) [
  | none ↦ join_or_start session_id cookie m
  | some entry ↦
      if is_fresh env m.shared.now entry then m else join_or_start session_id entry.refresh_token m
]

unfoldable pub force_step : String → String → Machine → Machine
unfolding join_or_start
force_step session_id cookie m =
    join_or_start session_id (current_or_cookie m.shared session_id cookie)
      (record m { shared = drop_entry session_id m.shared })

abbrev pub store_outcome : Env → String → Result TokenPair → Shared → Shared
store_outcome env session_id (ok pair) s = store_entry env session_id pair s
store_outcome env session_id (throws e) s = s

unfoldable pub reply_step : Env → ℕ → Option HttpReply → Machine → Machine
unfolding find_flight settle_flight
reply_step env p reply m = elim (find_flight false p m.flights) [
  | none ↦ m
  | some f ↦ record {
    shared = store_outcome env f.session_id (refresh_outcome env reply) m.shared;
    flights = settle_flight p m.flights;
  }
]

unfoldable pub finish_step : ℕ → Machine → Machine
unfolding find_flight drop_flight
finish_step p m = elim (find_flight true p m.flights) [
  | none ↦ m
  | some f ↦ record {
    shared = release_lock f.session_id m.shared;
    flights = drop_flight p m.flights;
  }
]

abbrev if_elevated : Machine → Option Shared → Machine
if_elevated m none = m
if_elevated m (some s) = record m { shared = s }

unfoldable pub step : Env → Machine → Event → Machine
step env m (resolves session_id cookie) = resolve_step env session_id cookie m
step env m (forces session_id cookie) = force_step session_id cookie m
step env m (replies p reply) = reply_step env p reply m
step env m (finishes p) = finish_step p m
step env m (seeds session_id pair) = record m { shared = seed env session_id pair m.shared }
step env m (elevates session_id token expires_at) =
    if_elevated m (overwrite_elevated session_id token expires_at m.shared)
step env m (invalidates session_id) = record m { shared = invalidate session_id m.shared }
step env m sweeps = record m { shared = sweep m.shared }
step env m (ticks now) = record m { shared = record m.shared { now = now } }

unfoldable pub run : Env → Machine → List Event → Machine
run env m [] = m
run env m (e ∷ es) = run env (step env m e) es
