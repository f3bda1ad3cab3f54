-- ===== src/Web/IdleLogout.antt =====
-- frontend/src/hooks/use-idle-logout.ts: the timers that sign an idle user out. Times are in
-- milliseconds; timers, toasts and what the hook does to the page are explicit.
pub mod Timers
use fernbank.Base.{
  ℕ, suc, ◌+◌, ◌-◌, ◌*◌, Bool, true, false, not, ◌&&◌, List, [], ◌∷◌, Option, none, some, ltb, leb,
  eqb, if◌then◌else◌,
}

abbrev pub idle_timeout_ms : ℕ
idle_timeout_ms = 5 * 60 * 1000

abbrev pub warning_before_ms : ℕ
warning_before_ms = 60 * 1000

abbrev pub activity_throttle_ms : ℕ
activity_throttle_ms = 2000

pub data TimerKind : Type 0 where
  warning : TimerKind
  logout : TimerKind

-- A pending `setTimeout`.
pub record Timer : Type 0 where
  pub id : ℕ
  pub kind : TimerKind
  pub due : ℕ

pub data Effect : Type 0 where
  warns : ℕ → Effect
  dismisses : ℕ → Effect
  redirects_and_logs_out : Effect

-- `last_activity`, `warning_timer`, `logout_timer` and `toast_id` are the hook's refs, `now` is what
-- `Date.now()` reads, and `effects` has the newest first. Ids of timers are positive, so a ref that
-- is set is true.
pub record IdleLogout : Type 0 where
  pub now : ℕ
  pub last_activity : ℕ
  pub warning_timer : Option ℕ
  pub logout_timer : Option ℕ
  pub toast_id : Option ℕ
  pub timers : List Timer
  pub next_id : ℕ
  pub listening : Bool
  pub effects : List Effect

abbrev pub is_referenced : Option ℕ → Timer → Bool
is_referenced none t = false
is_referenced (some id) t = eqb t.id id

-- `if (ref.current) clearTimeout(ref.current)`.
unfoldable pub cancel : Option ℕ → List Timer → List Timer
cancel ref [] = []
cancel ref (t ∷ ts) = let rest = cancel ref ts in if is_referenced ref t then rest else t ∷ rest

unfoldable pub clear_timers : IdleLogout → IdleLogout
unfolding cancel
clear_timers s = record s { timers = cancel s.logout_timer (cancel s.warning_timer s.timers) }

-- The part of `scheduleTimers` behind `clearTimers`.
unfoldable pub set_timers : IdleLogout → IdleLogout
set_timers s = record s {
  warning_timer = some s.next_id;
  logout_timer = some (suc s.next_id);
  next_id = suc (suc s.next_id);
  timers =
      record { id = s.next_id; kind = warning; due = s.now + (idle_timeout_ms - warning_before_ms) }
      ∷ record { id = suc s.next_id; kind = logout; due = s.now + idle_timeout_ms }
      ∷ s.timers;
}

unfoldable pub schedule_timers : IdleLogout → IdleLogout
unfolding clear_timers set_timers
schedule_timers s = set_timers (clear_timers s)

abbrev pub dismissed : Option ℕ → List Effect → List Effect
dismissed none effects = effects
dismissed (some toast) effects = dismisses toast ∷ effects

unfoldable pub register_activity : Bool → IdleLogout → IdleLogout
unfolding schedule_timers
register_activity force s =
    if not force && ltb (s.now - s.last_activity) activity_throttle_ms
    then s
    else schedule_timers (record s {
      last_activity = s.now;
      toast_id = none;
      effects = dismissed s.toast_id s.effects;
    })

unfoldable pub find_due : ℕ → ℕ → List Timer → Option Timer
find_due now id [] = none
find_due now id (t ∷ ts) =
    let later = find_due now id ts in if eqb t.id id && leb t.due now then some t else later

-- The callbacks of the two timers.
unfoldable pub ring : TimerKind → IdleLogout → IdleLogout
ring warning s = record s {
  toast_id = some s.next_id;
  next_id = suc s.next_id;
  effects = warns s.next_id ∷ s.effects;
}
ring logout s = record s { effects = redirects_and_logs_out ∷ s.effects }

unfoldable pub fire : ℕ → IdleLogout → IdleLogout
unfolding find_due cancel ring
fire id s = elim (find_due s.now id s.timers) [
  | none ↦ s
  | some t ↦ ring t.kind (record s { timers = cancel (some id) s.timers })
]

-- `activity` is one of the window's events, `stays` a click on the toast, `fires` a timer that is due,
-- `passes` time, and `unmounts` the effect's clean-up.
pub data Event : Type 0 where
  activity : Event
  stays : Event
  fires : ℕ → Event
  passes : ℕ → Event
  unmounts : Event

-- `handleActivity`, while the window's events are listened to.
unfoldable pub handle_activity : Bool → IdleLogout → IdleLogout
unfolding register_activity
handle_activity true s = register_activity false s
handle_activity false s = s

unfoldable pub step : IdleLogout → Event → IdleLogout
unfolding handle_activity register_activity fire clear_timers
step s activity = handle_activity s.listening s
step s stays = register_activity true s
step s (fires id) = fire id s
step s (passes ms) = record s { now = s.now + ms }
step s unmounts = record (clear_timers s) { listening = false }

unfoldable pub run : IdleLogout → List Event → IdleLogout
unfolding step
run s [] = s
run s (e ∷ es) = run (step s e) es

-- The effect on a hook that is enabled, at a time.
unfoldable pub mount : ℕ → IdleLogout
unfolding schedule_timers
mount now = schedule_timers (record {
  now = now;
  last_activity = 0;
  warning_timer = none;
  logout_timer = none;
  toast_id = none;
  timers = [];
  next_id = 1;
  listening = true;
  effects = [];
})
