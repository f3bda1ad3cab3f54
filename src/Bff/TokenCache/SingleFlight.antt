-- ===== src/Bff/TokenCache/SingleFlight.antt =====
-- One refresh in flight for each session: the lock of access-token-cache.service.ts.
use fernbank.Base.{
  ℕ, suc, ◌+◌, ◌≡◌, ◌≢◌, refl, ap, true, List, [], ◌∷◌, String, Option, none, some, ◌==◌, eq_iff,
  if◌then◌else◌, All, arith, Option-cases, Bool-cases, inl, inr,
}
use fernbank.Base.Dict.{lookup, lookup-insert, lookup-remove}
use fernbank.Bff.World.{Env}
use fernbank.Bff.Http.{HttpReply}
use fernbank.Bff.TokenCache.{
  is_fresh, begin_refresh, release_lock, invalidate, drop_entry, store_entry, overwrite_elevated,
  seed, sweep,
}
use fernbank.Bff.TokenCache.Machine.{
  Flight, Machine, Event, resolves, forces, replies, finishes, seeds, elevates, invalidates, sweeps,
  ticks, find_flight, settle_flight, drop_flight, join_or_start, resolve_step, force_step,
  reply_step, finish_step, step, run,
}

-- The flights of a session.
abbrev pub flights_of : String → List Flight → ℕ
flights_of session_id [] = 0
flights_of session_id (f ∷ fs) =
    let rest = flights_of session_id fs in if f.session_id == session_id then suc rest else rest

abbrev pub lock_count : Option ℕ → ℕ
lock_count none = 0
lock_count (some p) = 1

-- A session's lock is held exactly while a refresh of it is in flight, and then by one.
abbrev pub IsSingle : String → Machine → Type 0
IsSingle session_id m =
    flights_of session_id m.flights ≡ lock_count (lookup session_id m.shared.refresh_locks)

flights_of-settle :
    (session_id : String) (p : ℕ) (fs : List Flight)
    → flights_of session_id (settle_flight p fs) ≡ flights_of session_id fs
unfolding settle_flight
flights_of-settle session_id p [] = refl
flights_of-settle session_id p (f ∷ fs) = ground (arith, flights_of-settle session_id p fs)

flights_of-drop :
    (session_id : String) (p : ℕ) (fs : List Flight) (f : Flight)
    → find_flight true p fs ≡ some f
    → flights_of session_id fs
      ≡ flights_of session_id (drop_flight p fs) + (if f.session_id == session_id then 1 else 0)
unfolding find_flight drop_flight
flights_of-drop session_id p [] f e = cc
flights_of-drop session_id p (g ∷ fs) f e = ground (arith, flights_of-drop session_id p fs f)

join_or_start-IsSingle :
    (session_id other token : String) (m : Machine)
    → IsSingle session_id m
    → IsSingle session_id (join_or_start other token m)
unfolding join_or_start begin_refresh
join_or_start-IsSingle session_id other token m h = ground (
  arith,
  lookup-insert other session_id m.shared.next_promise m.shared.refresh_locks,
  eq_iff other session_id,
)

resolve_step-IsSingle :
    (env : Env) (session_id other cookie : String) (m : Machine)
    → IsSingle session_id m
    → IsSingle session_id (resolve_step env other cookie m)
unfolding resolve_step
resolve_step-IsSingle env session_id other cookie m h =
    elim (Option-cases (lookup other m.shared.cache)) [
      | inl e ↦ rw (e, resolve_step) (join_or_start-IsSingle session_id other cookie m h)
      | inr (entry, e) ↦ elim (Bool-cases (is_fresh env m.shared.now entry)) [
        | inl fresh ↦ rw (e, resolve_step) (rw fresh h)
        | inr old ↦
            rw (e, resolve_step)
              (rw old (join_or_start-IsSingle session_id other entry.refresh_token m h))
      ]
    ]

force_step-IsSingle :
    (session_id other cookie : String) (m : Machine)
    → IsSingle session_id m
    → IsSingle session_id (force_step other cookie m)
unfolding force_step drop_entry
force_step-IsSingle session_id other cookie m h =
    join_or_start-IsSingle session_id other _ (record m { shared = drop_entry other m.shared }) h

reply_step-IsSingle :
    (env : Env) (session_id : String) (p : ℕ) (reply : Option HttpReply) (m : Machine)
    → IsSingle session_id m
    → IsSingle session_id (reply_step env p reply m)
unfolding reply_step store_entry
reply_step-IsSingle env session_id p reply m h =
    ground (arith, flights_of-settle session_id p m.flights)

finish_step-IsSingle :
    (session_id : String) (p : ℕ) (m : Machine)
    → IsSingle session_id m
    → IsSingle session_id (finish_step p m)
unfolding finish_step release_lock
finish_step-IsSingle session_id p m h = elim (Option-cases (find_flight true p m.flights)) [
  | inl e ↦ rw (e, finish_step) h
  | inr (f, e) ↦
      rw (e, finish_step)
        (ground (
          arith,
          flights_of-drop session_id p m.flights f e,
          lookup-remove f.session_id session_id m.shared.refresh_locks,
          eq_iff f.session_id session_id,
        ))
]

step-IsSingle :
    (env : Env) (session_id : String) (m : Machine) (e : Event)
    → e ≢ invalidates session_id
    → IsSingle session_id m
    → IsSingle session_id (step env m e)
unfolding step
step-IsSingle env session_id m (resolves other cookie) d h =
    resolve_step-IsSingle env session_id other cookie m h
step-IsSingle env session_id m (forces other cookie) d h =
    force_step-IsSingle session_id other cookie m h
step-IsSingle env session_id m (replies p reply) d h =
    reply_step-IsSingle env session_id p reply m h
step-IsSingle env session_id m (finishes p) d h = finish_step-IsSingle session_id p m h
step-IsSingle env session_id m (seeds other pair) d h = unfold seed in h
step-IsSingle env session_id m (elevates other token expires_at) d h =
    unfold overwrite_elevated in ground arith
step-IsSingle env session_id m (invalidates other) d h =
    unfold invalidate in
    ground (
      arith,
      lookup-remove other session_id m.shared.refresh_locks,
      eq_iff other session_id,
      ap invalidates,
    )
step-IsSingle env session_id m sweeps d h = unfold sweep in h
step-IsSingle env session_id m (ticks now) d h = h

-- As long as a session is not invalidated, every order of the other parts keeps at most one refresh
-- of it in flight, and its lock is held exactly while there is one.
pub run-IsSingle :
    (env : Env) (session_id : String) (m : Machine) (es : List Event)
    → All (λ e. e ≢ invalidates session_id) es
    → IsSingle session_id m
    → IsSingle session_id (run env m es)
unfolding run
run-IsSingle env session_id m [] d h = h
run-IsSingle env session_id m (e ∷ es) d h =
    run-IsSingle env session_id (step env m e) es d.1 (step-IsSingle env session_id m e d.0 h)
