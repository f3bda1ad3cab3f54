-- ===== src/Web/Activity/Ranking.antt =====
-- Which entries the list of activity.ts shows, and in which order.
use fernbank.Base.{
  ℕ, zero, suc, ◌+◌, ◌≤◌, ◌≡◌, refl, ap, sym, ◌∙◌, subst, ◌⊎◌, inl, inr, Bool, true, false, List,
  [], ◌∷◌, ◌++◌, String, take, drop, length, if◌then◌else◌, All, arith, Bool-cases, or_else, map,
}
use fernbank.Bff.Dashboard.{StatementEntryResponse}
use fernbank.Web.Activity.{
  ActivityEntry, AccountEntries, merged, stays_before, place, sort, merge_recent_activity, created,
  with_account,
}

-- How many entries pass a test.
abbrev pub count : (ActivityEntry → Bool) → List ActivityEntry → ℕ
count test [] = 0
count test (a ∷ xs) = (if test a then 1 else 0) + count test xs

-- How many of the accounts' entries pass it, each taken with its account's id.
abbrev count_entries : (ActivityEntry → Bool) → String → List StatementEntryResponse → ℕ
count_entries test account_id [] = 0
count_entries test account_id (entry ∷ entries) =
    (if test (record { entry = entry; account_id = account_id }) then 1 else 0)
    + count_entries test account_id entries

abbrev pub count_accounts : (ActivityEntry → Bool) → List AccountEntries → ℕ
count_accounts test [] = 0
count_accounts test (account ∷ accounts) =
    count_entries test account.account_id account.entries + count_accounts test accounts

count-merge :
    (test : ActivityEntry → Bool) (account_id : String) (entries : List StatementEntryResponse)
    (more : List ActivityEntry)
    → count test (map (with_account account_id) entries ++ more)
      ≡ count_entries test account_id entries + count test more
count-merge test account_id [] more = omega arith
count-merge test account_id (entry ∷ entries) more =
    omega (arith, count-merge test account_id entries more)

count-merged :
    (test : ActivityEntry → Bool) (accounts : List AccountEntries)
    → count test (merged accounts) ≡ count_accounts test accounts
unfolding merged
count-merged test [] = refl
count-merged test (account ∷ accounts) = omega (
  arith,
  count-merge test account.account_id account.entries (merged accounts),
  count-merged test accounts,
)

take-drop : {A : Type 0} (n : ℕ) (xs : List A) → take n xs ++ drop n xs ≡ xs
take-drop zero xs = refl
take-drop (suc n) [] = refl
take-drop (suc n) (x ∷ xs) = ap (λ ys. x ∷ ys) (take-drop n xs)

take_bounds :
    {A : Type 0} (n : ℕ) (xs : List A)
    → (length (take n xs) ≤ n) × ((drop n xs ≡ []) ⊎ (length (take n xs) ≡ n))
take_bounds zero xs = (omega arith, inr refl)
take_bounds (suc n) [] = (omega arith, inl refl)
take_bounds (suc n) (x ∷ xs) =
    let (few, full) = take_bounds n xs in
    (omega arith, elim full [ inl e ↦ inl e | inr e ↦ inr (omega arith) ])

module _ (at_most : String → String → Bool) where
  -- No entry behind another is newer than that.
  abbrev pub IsRanked : List ActivityEntry → Type 0
  IsRanked [] = Unit
  IsRanked (a ∷ xs) =
      All (λ b. at_most (or_else b.entry.created_at "") (or_else a.entry.created_at "") ≡ true) xs
      × IsRanked xs

  place-count :
      (test : ActivityEntry → Bool) (a : ActivityEntry) (xs : List ActivityEntry)
      → count test (place at_most a xs) ≡ (if test a then 1 else 0) + count test xs
  unfolding place
  place-count test a [] = refl
  place-count test a (b ∷ bs) = elim (Bool-cases (stays_before at_most a b)) [
    | inl before ↦ rw before refl
    | inr behind ↦ rw behind (omega (arith, place-count test a bs))
  ]

  sort-count :
      (test : ActivityEntry → Bool) (xs : List ActivityEntry)
      → count test (sort at_most xs) ≡ count test xs
  unfolding sort
  sort-count test [] = refl
  sort-count test (a ∷ xs) = omega (arith, place-count test a (sort at_most xs), sort-count test xs)

  module _ (total : (s t : String) → (at_most s t ≡ true) ⊎ (at_most t s ≡ true))
      (transitive : (s t u : String)
        → at_most s t ≡ true
        → at_most t u ≡ true
        → at_most s u ≡ true) where
    place-All :
        (P : ActivityEntry → Type 0) (a : ActivityEntry) (xs : List ActivityEntry)
        → P a
        → All P xs
        → All P (place at_most a xs)
    unfolding place
    place-All P a [] p h = (p, tt)
    place-All P a (b ∷ bs) p h = elim (Bool-cases (stays_before at_most a b)) [
      | inl before ↦ rw before (p, h)
      | inr behind ↦ rw behind (h.0, place-All P a bs p h.1)
    ]

    behind-All :
        (a b : ActivityEntry) (bs : List ActivityEntry)
        → stays_before at_most a b ≡ true
        → All (λ c. stays_before at_most b c ≡ true) bs
        → All (λ c. stays_before at_most a c ≡ true) bs
    behind-All a b [] e h = tt
    behind-All a b (c ∷ cs) e h =
        (transitive (created c) (created b) (created a) h.0 e, behind-All a b cs e h.1)

    other_way :
        (a b : ActivityEntry) → stays_before at_most a b ≡ false → stays_before at_most b a ≡ true
    other_way a b older = elim (total (created b) (created a)) [
      | inl forward ↦ cc
      | inr backward ↦ backward
    ]

    place-IsRanked :
        (a : ActivityEntry) (xs : List ActivityEntry) → IsRanked xs → IsRanked (place at_most a xs)
    unfolding place
    place-IsRanked a [] h = (tt, tt)
    place-IsRanked a (b ∷ bs) h = elim (Bool-cases (stays_before at_most a b)) [
      | inl before ↦ rw before ((before, behind-All a b bs before h.0), h)
      | inr behind ↦
          rw behind (place-All _ a bs (other_way a b behind) h.0, place-IsRanked a bs h.1)
    ]

    sort-IsRanked : (xs : List ActivityEntry) → IsRanked (sort at_most xs)
    unfolding sort
    sort-IsRanked [] = tt
    sort-IsRanked (a ∷ xs) = place-IsRanked a (sort at_most xs) (sort-IsRanked xs)

    -- Where `localeCompare` orders all texts, the list holds the newest entries of all accounts, as
    -- many as the limit allows: with the entries left out behind it, it is every entry, with the id of its
    -- account, as often as the accounts have it, in an order that puts none before a newer one.
    pub merge_recent_activity-IsRanked :
        (accounts : List AccountEntries) (limit : ℕ)
        → (left_out : List ActivityEntry) × IsRanked
            (merge_recent_activity at_most accounts limit ++ left_out)
          × ((test : ActivityEntry → Bool)
              → count test (merge_recent_activity at_most accounts limit ++ left_out)
                ≡ count_accounts test accounts)
          × (length (merge_recent_activity at_most accounts limit) ≤ limit)
          × ((left_out ≡ []) ⊎ (length (merge_recent_activity at_most accounts limit) ≡ limit))
    unfolding merge_recent_activity
    merge_recent_activity-IsRanked accounts limit =
        let ranked = sort at_most (merged accounts) in
        let whole = take-drop limit ranked in
        (
          drop limit ranked,
          subst IsRanked (sym whole) (sort-IsRanked (merged accounts)),
          (λ test.
              ap (count test) whole
              ∙ sort-count test (merged accounts)
              ∙ count-merged test accounts),
          (take_bounds limit ranked).0,
          (take_bounds limit ranked).1,
        )
