-- ===== src/Bff/Tests/CacheRuns.antt =====
-- The theorems about the lifetime of an access token, at the fixture.
use fernbank.Base.{◌≡◌, refl, false, [], ◌∷◌, String, some, ◌==◌, if◌then◌else◌}
use fernbank.Base.Int.{pos}
use fernbank.Base.Dict.{lookup}
use fernbank.Bff.Http.{HttpReply, TokenPair}
use fernbank.Bff.World.{Shared}
use fernbank.Bff.TokenCache.{
  entry_of, sweep, seed, overwrite_elevated, resolve_access_token, get_current_refresh_token,
  refresh_outcome,
}
use fernbank.Bff.TokenCache.Machine.{Machine, Flight, invalidates, replies, step, find_flight}
use fernbank.Bff.TokenCache.Lifetime.{
  lookup-sweep, IsSwept, overwrite_elevated_lem, replies-invalidates,
}
use fernbank.Base.Text.Laws.{lacks→Lacks}
use fernbank.Bff.TokenCache.Seeding.{IsTokenUntil, IsResolved, resolve_access_token-seed}
use fernbank.Bff.Tests.Fixture.{server, answers, entry, shared_state, world}

-- More than ten minutes behind the entry's time.
abbrev later : Shared
later = record shared_state { now = pos 700000 }

lookup-sweep_example :
    IsSwept "id-1" later (sweep later)
    × (sweep later ≡ record later { cache = (sweep later).cache })
unfolding lookup
lookup-sweep_example = lookup-sweep later "id-1" (refl, tt)

abbrev late_pair : TokenPair
late_pair = record { access_token = "h.late.s"; refresh_token = "refresh-2" }

-- The token's payload says 1000 seconds, and the time is 5 seconds.
late_pair-IsTokenUntil : IsTokenUntil (server (answers 200)) late_pair.access_token (pos 1000)
late_pair-IsTokenUntil =
    ("h", "late", "s", refl, lacks→Lacks b'.' "h" refl, lacks→Lacks b'.' "late" refl, refl)

resolve_access_token-seed_example :
    IsResolved
      (server (answers 200))
      late_pair
      (pos 1000)
      (record world { shared = seed (server (answers 200)) "id-2" late_pair world.shared })
      (resolve_access_token
        (server (answers 200))
        "id-2"
        "refresh-0"
        (record world { shared = seed (server (answers 200)) "id-2" late_pair world.shared }))
unfolding lookup
resolve_access_token-seed_example =
    resolve_access_token-seed (server (answers 200)) "id-2" "refresh-0" late_pair (pos 1000) world
      late_pair-IsTokenUntil refl

overwrite_elevated_lem_example :
    (s' : Shared) × (overwrite_elevated "id-1" "h.late.s" (pos 99) shared_state ≡ some s')
    × ((other : String)
        → lookup other s'.cache ≡ (
            if "id-1" == other
            then some (record entry { access_token = "h.late.s"; expires_at = pos 99 })
            else lookup other shared_state.cache))
    × (get_current_refresh_token s' "id-1" ≡ some "refresh-1")
unfolding lookup
overwrite_elevated_lem_example =
    overwrite_elevated_lem "id-1" "h.late.s" (pos 99) entry shared_state refl

abbrev flight : Flight
flight = record { promise = 0; session_id = "id-1"; refresh_token = "refresh-1"; settled = false }

abbrev flying : Machine
flying = record { shared = shared_state; flights = flight ∷ [] }

abbrev refreshed : HttpReply
refreshed = record { status = 200; headers = []; body = "h.late.s" }

replies-invalidates_example :
    lookup "id-1"
      (step
        (server (answers 200))
        (step (server (answers 200)) flying (invalidates "id-1"))
        (replies 0 (some refreshed))).shared.cache
    ≡ some (
        entry_of
          (server (answers 200))
          (pos 5000)
          (record { access_token = "h.late.s"; refresh_token = "refresh-2" }))
unfolding find_flight refresh_outcome
replies-invalidates_example =
    replies-invalidates (server (answers 200)) 0 refreshed
      (record { access_token = "h.late.s"; refresh_token = "refresh-2" }) flight flying refl refl
