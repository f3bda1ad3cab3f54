-- ===== src/Bff/Tests/StreamRuns.antt =====
-- The theorem about the streams of notification-poller.service.ts, at two browsers of one session and
-- one of another, and a run of its code.
use fernbank.Base.{◌≡◌, refl, ◌⊎◌, true, false, List, [], ◌∷◌, some, ltb}
use fernbank.Base.Dict.{lookup, insert, remove}
use fernbank.Bff.Notifications.Subscribers.{Event, opens, closes, run, started}
use fernbank.Bff.Notifications.Subscribers.Refinement.{
  is_polled, watchers_of, watch_all, nobody, run-refines,
}

abbrev visits : List Event
visits = opens "id-1" ∷ opens "id-2" ∷ opens "id-1" ∷ closes 0 ∷ closes 1 ∷ closes 7 ∷ []

run-refines_example :
    (is_polled (run started visits) "id-1"
      ≡ ltb 0 (watchers_of "id-1" (watch_all nobody visits).present))
    × ((((run started visits).heap 1).is_running ≡ false)
        ⊎ ((lookup ((run started visits).heap 1).session_id (run started visits).pollers ≡ some 1)
            × (((run started visits).heap 1).ref_count
                ≡ watchers_of
                    ((run started visits).heap 1).session_id
                    (watch_all nobody visits).present)))
run-refines_example = run-refines visits "id-1" 1

second_stays : ((run started visits).heap 0).ref_count ≡ 1
unfolding run lookup insert remove
second_stays = refl

other_stops : ((run started visits).heap 1).is_running ≡ false
unfolding run lookup insert remove
other_stops = refl

still_polled : is_polled (run started visits) "id-1" ≡ true
unfolding run lookup insert remove
still_polled = refl
