-- ===== src/Web/Tests/PageRuns.antt =====
-- The theorems about the list of the newest entries, with texts ordered by their size, and about the
-- attempts to wake the backend.
use fernbank.Base.{
  ℕ, suc, ◌≤◌, ◌≡◌, ◌⊎◌, inl, inr, Bool, true, false, List, [], ◌∷◌, ◌++◌, String, some, none, leb,
  length, arith, Bool-cases,
}
use fernbank.Bff.Dashboard.{StatementEntryResponse}
use fernbank.Web.Activity.{ActivityEntry, AccountEntries, merge_recent_activity}
use fernbank.Web.Activity.Ranking.{merge_recent_activity-IsRanked, IsRanked, count, count_accounts}
use fernbank.Web.Warmup.{Event, answers, becomes_visible, retries, run, mount}
use fernbank.Web.Warmup.Attempts.{run-IsWatching, IsWatching}

abbrev size : String → ℕ
size String.[] = 0
size (String.◌∷◌ c s) = suc (size s)

abbrev at_most : String → String → Bool
at_most s t = leb (size s) (size t)

at_most-total : (s t : String) → (at_most s t ≡ true) ⊎ (at_most t s ≡ true)
at_most-total s t = elim (Bool-cases (at_most s t)) [ inl e ↦ inl e | inr e ↦ inr (ground arith) ]

at_most-transitive : (s t u : String) → at_most s t ≡ true → at_most t u ≡ true → at_most s u ≡ true
at_most-transitive s t u h k = ground arith

abbrev entry_at : String → StatementEntryResponse
entry_at time = record {
  id = none;
  transaction_id = none;
  created_at = some time;
  amount = none;
  description = none;
}

abbrev accounts : List AccountEntries
accounts =
    record { account_id = "a1"; entries = entry_at "1" ∷ entry_at "333" ∷ [] }
    ∷ record { account_id = "a2"; entries = entry_at "22" ∷ [] }
    ∷ []

merge_recent_activity-IsRanked_example :
    (left_out : List ActivityEntry) × IsRanked at_most
      (merge_recent_activity at_most accounts 2 ++ left_out)
    × ((test : ActivityEntry → Bool)
        → count test (merge_recent_activity at_most accounts 2 ++ left_out)
          ≡ count_accounts test accounts)
    × (length (merge_recent_activity at_most accounts 2) ≤ 2)
    × ((left_out ≡ []) ⊎ (length (merge_recent_activity at_most accounts 2) ≡ 2))
merge_recent_activity-IsRanked_example =
    merge_recent_activity-IsRanked at_most at_most-total at_most-transitive accounts 2

-- A failed attempt, another one when the page comes back, and its answer.
abbrev morning : List Event
morning = answers false ∷ becomes_visible true ∷ retries ∷ answers true ∷ []

run-IsWatching_example : IsWatching (run mount morning)
run-IsWatching_example = run-IsWatching morning
