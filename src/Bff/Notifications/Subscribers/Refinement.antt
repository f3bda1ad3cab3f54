-- ===== src/Bff/Notifications/Subscribers/Refinement.antt =====
-- What notification-poller.service.ts promises, without its pollers: a session is polled exactly while
-- a browser of its watches. And that the pollers, with their counts and intervals, keep the promise.
use fernbank.Base.{
  ℕ, suc, ◌≡◌, refl, ap, sym, subst, ◌∙◌, ◌⊎◌, inl, inr, Bool, false, List, [], ◌∷◌, String, Option,
  none, some, ltb, eqb, ◌==◌, if◌then◌else◌, arith, Bool-cases, Option-cases, map,
}
use fernbank.Base.Dict.{lookup}
use fernbank.Bff.Notifications.Subscribers.{
  Poller, Stream, Pollers, find_stream, drop_stream, release, subscribe, subscribe_at, join, create,
  tear_down, Event, opens, closes, step, run, started,
}
use fernbank.Bff.Notifications.Subscribers.Tracking.{
  streams_of, Tracked, IsSound, known, subscribe-IsSound,
}
use fernbank.Bff.Notifications.Subscribers.Teardown.{tear_down-IsSound}

-- The promise: who watches, each with the number of the stream and the session.
pub record Watchers : Type 0 where
  pub present : List (ℕ × String)
  pub next : ℕ

abbrev pub leave : ℕ → List (ℕ × String) → List (ℕ × String)
leave id [] = []
leave id ((i, sid) ∷ ws) = let rest = leave id ws in if eqb i id then ws else (i, sid) ∷ rest

abbrev pub watch : Watchers → Event → Watchers
watch w (opens sid) = record { present = (w.next, sid) ∷ w.present; next = suc w.next }
watch w (closes id) = record w { present = leave id w.present }

abbrev pub watch_all : Watchers → List Event → Watchers
watch_all w [] = w
watch_all w (e ∷ es) = watch_all (watch w e) es

abbrev pub nobody : Watchers
nobody = record { present = []; next = 0 }

abbrev pub watchers_of : String → List (ℕ × String) → ℕ
watchers_of sid [] = 0
watchers_of sid ((i, other) ∷ ws) =
    let rest = watchers_of sid ws in if other == sid then suc rest else rest

-- The watchers that the detailed state stands for.
abbrev watcher : Stream → ℕ × String
watcher t = (t.id, t.session_id)

abbrev watching : Pollers → Watchers
watching s = record { present = map watcher s.open_streams; next = s.next_stream }

-- Whether the map has a poller for the session whose interval runs.
abbrev pub is_polled_at : Option ℕ → (ℕ → Poller) → Bool
is_polled_at none heap = false
is_polled_at (some address) heap = (heap address).is_running

abbrev pub is_polled : Pollers → String → Bool
is_polled s sid = is_polled_at (lookup sid s.pollers) s.heap

map-drop_stream :
    (id : ℕ) (ts : List Stream) → map watcher (drop_stream id ts) ≡ leave id (map watcher ts)
unfolding drop_stream
map-drop_stream id [] = refl
map-drop_stream id (t ∷ ts) = ground (arith, map-drop_stream id ts)

drop_stream-unmet : (id : ℕ) (ts : List Stream) → find_stream id ts ≡ none → drop_stream id ts ≡ ts
unfolding drop_stream find_stream
drop_stream-unmet id [] e = refl
drop_stream-unmet id (t ∷ ts) e = ground (arith, drop_stream-unmet id ts, e)

streams_of-map :
    (sid : String) (ts : List Stream) → watchers_of sid (map watcher ts) ≡ streams_of sid ts
streams_of-map sid [] = refl
streams_of-map sid (t ∷ ts) = ground (arith, streams_of-map sid ts)

subscribe_at-watching :
    (found : Option ℕ) (sid : String) (s : Pollers)
    → watching (subscribe_at found sid s) ≡ watch (watching s) (opens sid)
unfolding subscribe_at join create
subscribe_at-watching none sid s = refl
subscribe_at-watching (some a) sid s = refl

release-next_stream : (t : Stream) (s : Pollers) → (release t s).next_stream ≡ s.next_stream
unfolding release
release-next_stream t s = ground arith

step-watching : (s : Pollers) (e : Event) → watching (step s e) ≡ watch (watching s) e
unfolding step subscribe tear_down
step-watching s (opens sid) = subscribe_at-watching (lookup sid s.pollers) sid s
step-watching s (closes id) = elim (Option-cases (find_stream id s.open_streams)) [
  | inl unmet ↦
      let same =
        sym (map-drop_stream id s.open_streams)
        ∙ ap (map watcher) (drop_stream-unmet id s.open_streams unmet) in
      rw (unmet, tear_down) (ap (λ ws. record { present = ws; next = s.next_stream }) (sym same))
  | inr (t, met) ↦
      rw (met, tear_down, release-next_stream t s, map-drop_stream id s.open_streams) refl
]

run-watching : (s : Pollers) (es : List Event) → watching (run s es) ≡ watch_all (watching s) es
unfolding run
run-watching s [] = refl
run-watching s (e ∷ es) = run-watching (step s e) es ∙ ap (λ w. watch_all w es) (step-watching s e)

step-IsSound : (s : Pollers) (e : Event) → IsSound s → IsSound (step s e)
unfolding step
step-IsSound s (opens sid) h = subscribe-IsSound sid s h
step-IsSound s (closes id) h = tear_down-IsSound id s h

run-IsSound : (s : Pollers) (es : List Event) → IsSound s → IsSound (run s es)
unfolding run
run-IsSound s [] h = h
run-IsSound s (e ∷ es) h = run-IsSound (step s e) es (step-IsSound s e h)

started-IsSound : IsSound started
unfolding lookup
started-IsSound = (λ sid. refl, tt, λ a runs. cc)

Tracked-is_polled_at :
    (found : Option ℕ) (heap : ℕ → Poller) (next n : ℕ) (sid : String)
    → Tracked found heap next sid n
    → is_polled_at found heap ≡ ltb 0 n
Tracked-is_polled_at none heap next n sid h = ground (arith, h)
Tracked-is_polled_at (some a) heap next n sid h = ground (arith, h)

counts :
    (s : Pollers) (a : ℕ)
    → IsSound s
    → ((s.heap a).is_running ≡ false)
      ⊎ ((lookup (s.heap a).session_id s.pollers ≡ some a)
          × ((s.heap a).ref_count ≡ streams_of (s.heap a).session_id s.open_streams))
counts s a h = elim (Bool-cases (s.heap a).is_running) [
  | inl runs ↦
      let at = h.2 a runs in
      inr (at, (known s (s.heap a).session_id a (h.0 (s.heap a).session_id) at).0.1)
  | inr still ↦ inl still
]

-- Over every order in which browsers open and close their streams: a session has a poller with a
-- running interval exactly if one of the streams that are open is the session's. And every interval
-- that runs belongs to the one poller that the map has for its session, whose `refCount` is the number
-- of the session's open streams; so no session is polled twice, and no interval outlives its streams.
pub run-refines :
    (es : List Event) (session_id : String) (address : ℕ)
    → (is_polled (run started es) session_id
        ≡ ltb 0 (watchers_of session_id (watch_all nobody es).present))
      × ((((run started es).heap address).is_running ≡ false)
          ⊎ ((lookup ((run started es).heap address).session_id (run started es).pollers
                ≡ some address)
              × (((run started es).heap address).ref_count
                  ≡ watchers_of
                      ((run started es).heap address).session_id
                      (watch_all nobody es).present)))
run-refines es session_id address =
    let s = run started es in
    let sound = run-IsSound started es started-IsSound in
    let seen : watching s ≡ watch_all nobody es = run-watching started es in
    subst
      (λ w.
        (is_polled s session_id ≡ ltb 0 (watchers_of session_id w.present))
        × (((s.heap address).is_running ≡ false)
            ⊎ ((lookup (s.heap address).session_id s.pollers ≡ some address)
                × ((s.heap address).ref_count
                    ≡ watchers_of (s.heap address).session_id w.present))))
      seen
      (rw
        (
          streams_of-map session_id s.open_streams,
          streams_of-map (s.heap address).session_id s.open_streams,
        )
        (
          Tracked-is_polled_at (lookup session_id s.pollers) s.heap s.next_address _ session_id
              (sound.0 session_id),
          counts s address sound,
        ))
