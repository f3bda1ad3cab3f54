-- ===== src/Web/Activity.antt =====
-- frontend/src/lib/statement/activity.ts: the newest entries over all accounts. `Array.sort` is stable,
-- so it is an insertion sort here; how `localeCompare` orders texts is an argument.
pub mod Ranking
use fernbank.Base.{ℕ, Bool, List, [], ◌∷◌, ◌++◌, String, Option, or_else, map, take, if◌then◌else◌}
use fernbank.Bff.Dashboard.{StatementEntryResponse}

pub record ActivityEntry : Type 0 where
  pub entry : StatementEntryResponse
  pub account_id : String

-- `{ accountId, entries }`.
pub record AccountEntries : Type 0 where
  pub account_id : String
  pub entries : List StatementEntryResponse

-- `entries.map((entry) => ({ ...entry, accountId }))`.
abbrev pub with_account : String → StatementEntryResponse → ActivityEntry
with_account account_id entry = record { entry = entry; account_id = account_id }

unfoldable pub merged : List AccountEntries → List ActivityEntry
merged [] = []
merged (account ∷ accounts) =
    map (with_account account.account_id) account.entries ++ merged accounts

-- `entry.createdAt ?? ''`.
abbrev pub created : ActivityEntry → String
created a = or_else a.entry.created_at ""

-- `at_most a b` is `a.localeCompare(b) <= 0`.
module _ (at_most : String → String → Bool) where
  -- The comparison leaves `a` before `b`.
  abbrev pub stays_before : ActivityEntry → ActivityEntry → Bool
  stays_before a b = at_most (created b) (created a)

  unfoldable pub place : ActivityEntry → List ActivityEntry → List ActivityEntry
  place a [] = a ∷ []
  place a (b ∷ bs) = let rest = place a bs in if stays_before a b then a ∷ b ∷ bs else b ∷ rest

  unfoldable pub sort : List ActivityEntry → List ActivityEntry
  unfolding place
  sort [] = []
  sort (a ∷ xs) = place a (sort xs)

  unfoldable pub merge_recent_activity : List AccountEntries → ℕ → List ActivityEntry
  unfolding merged sort
  merge_recent_activity entries_by_account limit = take limit (sort (merged entries_by_account))
