-- ===== src/Bff/Notifications/Delivery.antt =====
-- Which transactions a poller of notification-poller.service.ts announces.
use mathlib.Core.List.{append-nil}
use fernbank.Base.{
  ◌≡◌, refl, ap, ◌∙◌, false, List, [], ◌∷◌, ◌++◌, String, none, some, eq_refl, map, All,
}
use fernbank.Base.Dict.{lookup, lookup-insert_self}
use fernbank.Base.Text.{is_empty}
use fernbank.Bff.Dashboard.{StatementEntryResponse}
use fernbank.Bff.Notifications.{
  PollerState, has_id, take_until_id, reversed, new_entries, event, absorb, seed_account,
}

-- None of the entries has the id.
abbrev pub IsNew : String → List StatementEntryResponse → Type 0
IsNew id entries = All (λ e. has_id id e ≡ false) entries

take_until_id-append :
    (fresh older : List StatementEntryResponse) (newest : StatementEntryResponse) (id : String)
    → IsNew id fresh
    → newest.id ≡ some id
    → take_until_id (fresh ++ (newest ∷ older)) id ≡ fresh
unfolding take_until_id
take_until_id-append [] older newest id h e = rw e (rw (eq_refl id) refl)
take_until_id-append (f ∷ fresh) older newest id h e =
    rw h.0 (ap (λ rest. f ∷ rest) (take_until_id-append fresh older newest id h.1 e))

module _ (account_id id : String) (fresh older : List StatementEntryResponse)
    (newest : StatementEntryResponse) (state : PollerState)
    (seen : lookup account_id state.last_seen_by_account ≡ some id) (real : is_empty id ≡ false)
    (at_id : newest.id ≡ some id) (unseen : IsNew id fresh) where
  -- A page that still holds the newest entry seen announces exactly the entries above it, the oldest
  -- first.
  pub absorb-emitted :
      (absorb account_id (fresh ++ (newest ∷ older)) state).emitted
      ≡ state.emitted ++ map (event account_id) (reversed fresh)
  unfolding absorb new_entries
  absorb-emitted =
      rw seen (rw real (rw (take_until_id-append fresh older newest id unseen at_id) refl))

absorb-last_seen :
    (account_id id : String) (older : List StatementEntryResponse) (newest : StatementEntryResponse)
    (state : PollerState)
    → is_empty id ≡ false
    → newest.id ≡ some id
    → lookup account_id (absorb account_id (newest ∷ older) state).last_seen_by_account ≡ some id
unfolding absorb
absorb-last_seen account_id id older newest state real at_id =
    rw at_id (rw real (lookup-insert_self account_id id state.last_seen_by_account))

-- Two rounds, one behind the other: the second announces each transaction that came in between once,
-- the oldest first, and none of those that the first round saw, as long as its page still holds the
-- first round's newest entry.
pub absorb-absorb :
    (account_id id : String) (fresh older rest : List StatementEntryResponse)
    (newest : StatementEntryResponse) (state : PollerState)
    → is_empty id ≡ false
    → newest.id ≡ some id
    → IsNew id fresh
    → (absorb account_id
        (fresh ++ (newest ∷ rest))
        (absorb account_id (newest ∷ older) state)).emitted
      ≡ (absorb account_id (newest ∷ older) state).emitted
        ++ map (event account_id) (reversed fresh)
absorb-absorb account_id id fresh older rest newest state real at_id unseen =
    absorb-emitted account_id id fresh rest newest (absorb account_id (newest ∷ older) state)
      (absorb-last_seen account_id id older newest state real at_id) real at_id unseen

absorb-no_id :
    (account_id : String) (page : List StatementEntryResponse) (state : PollerState)
    → lookup account_id state.last_seen_by_account ≡ none
    → (absorb account_id page state).emitted ≡ state.emitted
unfolding absorb new_entries reversed
absorb-no_id account_id page state unseen = rw unseen (append-nil state.emitted)

seed_account-last_seen :
    (account_id id : String) (older : List StatementEntryResponse) (newest : StatementEntryResponse)
    (state : PollerState)
    → is_empty id ≡ false
    → newest.id ≡ some id
    → lookup account_id (seed_account account_id (newest ∷ older) state).last_seen_by_account
      ≡ some id
unfolding seed_account
seed_account-last_seen account_id id older newest state real at_id =
    rw at_id (rw real (lookup-insert_self account_id id state.last_seen_by_account))

-- What a poller announces depends on when it first saw a transaction of the account. If it starts on a
-- page with one, the next round announces what came in since, the oldest first. If it starts on an empty
-- statement, the account's first transactions are never announced: the first round that sees them
-- announces none, and the round behind it only those that came in between the two. In both cases nothing
-- was remembered of the account before, and the last page still holds the newest entry of the page before.
pub absorb-seed_account :
    (account_id id : String) (fresh older rest : List StatementEntryResponse)
    (newest : StatementEntryResponse) (state : PollerState)
    → is_empty id ≡ false
    → newest.id ≡ some id
    → IsNew id fresh
    → lookup account_id state.last_seen_by_account ≡ none
    → ((absorb account_id
          (fresh ++ (newest ∷ rest))
          (seed_account account_id (newest ∷ older) state)).emitted
        ≡ state.emitted ++ map (event account_id) (reversed fresh))
      × ((absorb account_id
            (fresh ++ (newest ∷ rest))
            (absorb account_id (newest ∷ older) (seed_account account_id [] state))).emitted
          ≡ state.emitted ++ map (event account_id) (reversed fresh))
unfolding seed_account
absorb-seed_account account_id id fresh older rest newest state real at_id unseen unknown = (
  absorb-emitted account_id id fresh rest newest (seed_account account_id (newest ∷ older) state)
      (seed_account-last_seen account_id id older newest state real at_id) real at_id unseen,
  absorb-absorb account_id id fresh older rest newest state real at_id unseen
      ∙ ap (λ emitted. emitted ++ map (event account_id) (reversed fresh))
          (absorb-no_id account_id (newest ∷ older) state unknown),
)
