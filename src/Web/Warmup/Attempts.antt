-- ===== src/Web/Warmup/Attempts.antt =====
-- What the states of use-backend-warmup.ts say, over every order of events.
use fernbank.Base.{
  ◌≡◌, refl, ◌⊎◌, inl, inr, Bool, true, false, not, ◌||◌, List, [], ◌∷◌, ltb, if◌then◌else◌, arith,
  Bool-cases,
}
use fernbank.Web.Warmup.{
  Warmup, WarmupState, checking, ready, failed, Event, answers, becomes_visible, retries, unmounts,
  attempt, set_unless, settle, attempt_if_failed, handle_visibility, retry, step, run, mount,
}

abbrev pub is_checking : WarmupState → Bool
is_checking checking = true
is_checking ready = false
is_checking failed = false

-- One attempt runs while the flag is up and none while it is down; a mounted hook shows that it is
-- checking exactly then.
abbrev pub IsWatching : Warmup → Type 0
IsWatching s =
    (s.running ≡ (if s.in_flight then 1 else 0))
    × ((s.cancelled ≡ true) ⊎ (is_checking s.state ≡ s.in_flight))

attempt-IsWatching : (s : Warmup) → IsWatching s → IsWatching (attempt s)
unfolding attempt
attempt-IsWatching s h = elim (Bool-cases s.in_flight) [
  | inl busy ↦ rw busy (ground arith)
  | inr idle ↦ rw idle (ground arith)
]

attempt_if_failed-IsWatching :
    (state : WarmupState) (s : Warmup) → IsWatching s → IsWatching (attempt_if_failed state s)
unfolding attempt_if_failed
attempt_if_failed-IsWatching checking s h = h
attempt_if_failed-IsWatching ready s h = h
attempt_if_failed-IsWatching failed s h = attempt-IsWatching s h

settle-IsWatching : (answer : Bool) (s : Warmup) → IsWatching s → IsWatching (settle answer s)
unfolding settle set_unless
settle-IsWatching true s h = ground arith
settle-IsWatching false s h = ground arith

step-IsWatching : (s : Warmup) (e : Event) → IsWatching s → IsWatching (step s e)
unfolding step handle_visibility retry
step-IsWatching s (answers answer) h = elim (Bool-cases (ltb 0 s.running)) [
  | inl running ↦ rw running (settle-IsWatching answer s h)
  | inr none_runs ↦ rw none_runs h
]
step-IsWatching s (becomes_visible visible) h =
    elim (Bool-cases ((not visible || s.cancelled) || s.in_flight)) [
      | inl ignored ↦ rw ignored h
      | inr heard ↦ rw heard (attempt_if_failed-IsWatching s.state s h)
    ]
step-IsWatching s retries h = elim (Bool-cases s.in_flight) [
  | inl busy ↦ ground arith
  | inr idle ↦ ground (arith, attempt-IsWatching s h)
]
step-IsWatching s unmounts h = (h.0, inl refl)

run-IsWatching_from : (s : Warmup) (es : List Event) → IsWatching s → IsWatching (run s es)
unfolding run
run-IsWatching_from s [] h = h
run-IsWatching_from s (e ∷ es) h = run-IsWatching_from (step s e) es (step-IsWatching s e h)

-- Over every order of answers, returns to the page, retries and the unmounting, at most one attempt
-- runs, one exactly while the flag is up, and a mounted hook shows that it is checking exactly then.
pub run-IsWatching : (es : List Event) → IsWatching (run mount es)
run-IsWatching es = run-IsWatching_from mount es (unfold mount attempt in (refl, inr refl))
