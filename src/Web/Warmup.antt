-- ===== src/Web/Warmup.antt =====
-- frontend/src/hooks/use-backend-warmup.ts: the attempts to wake the backend. `checkWarmup` of
-- frontend/src/lib/api/warmup.ts ends each attempt with a Boolean, whatever the network does.
pub mod Attempts
use fernbank.Base.Text.{truthy}
use fernbank.Base.{
  ◌≡◌, refl, String, Option, none, some, ◌&&◌, ℕ, suc, ◌-◌, Bool, true, false, not, ◌||◌, List, [],
  ◌∷◌, ltb, if◌then◌else◌,
}

pub data WarmupState : Type 0 where
  checking : WarmupState
  ready : WarmupState
  failed : WarmupState

-- `running` counts the attempts that wait for their answer, and `pings` the calls of
-- `pingBackendDirectly`.
pub record Warmup : Type 0 where
  pub state : WarmupState
  pub in_flight : Bool
  pub cancelled : Bool
  pub running : ℕ
  pub pings : ℕ

-- `attempt` up to its await.
unfoldable pub attempt : Warmup → Warmup
attempt s = if s.in_flight then s else record s {
  state = checking;
  in_flight = true;
  running = suc s.running;
  pings = suc s.pings;
}

-- `setState`, which an unmounted hook does not call.
unfoldable pub set_unless : Bool → WarmupState → Warmup → Warmup
set_unless true state s = s
set_unless false state s = record s { state = state }

-- `attempt` behind its await.
unfoldable pub settle : Bool → Warmup → Warmup
unfolding set_unless
settle answer s =
    set_unless s.cancelled (if answer then ready else failed)
      (record s { in_flight = false; running = s.running - 1 })

unfoldable pub attempt_if_failed : WarmupState → Warmup → Warmup
unfolding attempt
attempt_if_failed checking s = s
attempt_if_failed ready s = s
attempt_if_failed failed s = attempt s

unfoldable pub handle_visibility : Bool → Warmup → Warmup
unfolding attempt_if_failed
handle_visibility visible s =
    if (not visible || s.cancelled) || s.in_flight then s else attempt_if_failed s.state s

unfoldable pub retry : Warmup → Warmup
unfolding attempt
retry s = if not s.in_flight then attempt s else s

pub data Event : Type 0 where
  answers : Bool → Event
  becomes_visible : Bool → Event
  retries : Event
  unmounts : Event

-- An answer comes only to an attempt that runs; the document's event is heard until the clean-up.
unfoldable pub step : Warmup → Event → Warmup
unfolding settle handle_visibility retry
step s (answers answer) = if ltb 0 s.running then settle answer s else s
step s (becomes_visible visible) = handle_visibility visible s
step s retries = retry s
step s unmounts = record s { cancelled = true }

unfoldable pub run : Warmup → List Event → Warmup
unfolding step
run s [] = s
run s (e ∷ es) = run (step s e) es

-- The first effect of the hook.
unfoldable pub mount : Warmup
unfolding attempt
mount =
    attempt
      (record { state = checking; in_flight = false; cancelled = false; running = 0; pings = 0 })

-- `checkWarmup`: the status of the response, none where `fetch` throws or is aborted.
unfoldable check_warmup : Option ℕ → Bool
check_warmup none = false
check_warmup (some status) = ltb 199 status && ltb status 300

-- The addresses asked so far, newest first, after `pingBackendDirectly` with an address or none.
unfoldable ping_backend_directly : Option String → List String → List String
ping_backend_directly health_url asked = elim (truthy health_url) [
  | none ↦ asked
  | some url ↦ url ∷ asked
]

check_warmup_unavailable : check_warmup (some 503) ≡ false
unfolding check_warmup
check_warmup_unavailable = refl
