-- ===== src/Bff/Notifications/Subscribers/Tracking.antt =====
-- What ties the pollers of notification-poller.service.ts to the open streams, and that `subscribe` keeps it.
use fernbank.Base.{
  ℕ, suc, ◌+◌, ◌<◌, ◌≡◌, refl, ap, sym, subst, ◌∙◌, inl, inr, true, false, List, [], ◌∷◌, String,
  Option, none, some, eqb, ◌==◌, eq_iff, eq_refl, if◌then◌else◌, All, arith, Bool-cases,
  Option-cases,
}
use fernbank.Base.Dict.{Dict, lookup, insert, lookup-insert, lookup-insert_self}
use fernbank.Bff.Notifications.Subscribers.{
  Poller, Stream, Pollers, update, join, create, subscribe_at, subscribe,
}

-- How many of the streams are a session's.
abbrev pub streams_of : String → List Stream → ℕ
streams_of sid [] = 0
streams_of sid (t ∷ ts) =
    let rest = streams_of sid ts in if t.session_id == sid then suc rest else rest

-- The poller at an address counts a session's streams, of which there are some, and its interval runs.
abbrev pub Serves : Poller → String → ℕ → Type 0
Serves p sid n = (p.session_id ≡ sid) × (p.ref_count ≡ n) × (0 < n) × (p.is_running ≡ true)

abbrev pub Tracked : Option ℕ → (ℕ → Poller) → ℕ → String → ℕ → Type 0
Tracked none heap next sid n = n ≡ 0
Tracked (some address) heap next sid n = Serves (heap address) sid n × (address < next)

abbrev pub IsTracked : Pollers → String → Type 0
IsTracked s sid =
    Tracked (lookup sid s.pollers) s.heap s.next_address sid (streams_of sid s.open_streams)

abbrev pub IsAimed : Pollers → Type 0
IsAimed s = All (λ t. lookup t.session_id s.pollers ≡ some t.active_state) s.open_streams

-- Another session's poller is at another address.
apart :
    (heap : ℕ → Poller) (sid other : String) (a b : ℕ)
    → (other == sid) ≡ false
    → (heap a).session_id ≡ sid
    → (heap b).session_id ≡ other
    → eqb a b ≡ false
apart heap sid other a b differ e f = elim (Bool-cases (eqb a b)) [
  | inl same ↦
      let at : a ≡ b = ground arith in
      ground (arith, eq_iff other sid, sym f ∙ (ap (λ c. (heap c).session_id) (sym at) ∙ e))
  | inr ne ↦ ne
]

-- What is done to a session's poller leaves the pollers of the others.
pub update-Tracked :
    (found : Option ℕ) (heap : ℕ → Poller) (next n address : ℕ) (sid other : String) (p : Poller)
    → (other == sid) ≡ false
    → (heap address).session_id ≡ other
    → Tracked found heap next sid n
    → Tracked found (update heap address p) next sid n
update-Tracked none heap next n address sid other p differ e h = h
update-Tracked (some a) heap next n address sid other p differ e h =
    rw (apart heap sid other a address differ h.0.0 e) h

pub eqb_refl : (n : ℕ) → eqb n n ≡ true
eqb_refl n = ground arith

-- `refCount++` on the poller that the map has for the session.
join-IsTracked :
    (s : Pollers) (sid other : String) (address : ℕ)
    → lookup other s.pollers ≡ some address
    → (s.heap address).session_id ≡ other
    → (s.heap address).ref_count ≡ streams_of other s.open_streams
    → (s.heap address).is_running ≡ true
    → address < s.next_address
    → ((other == sid) ≡ false → IsTracked s sid)
    → IsTracked (join other address s) sid
unfolding join
join-IsTracked s sid other address found named counted runs old h =
    elim (Bool-cases (other == sid)) [
      | inl same ↦ subst (IsTracked (join other address s)) ((eq_iff other sid).0 same) (
          rw (found, join, eq_refl other, eqb_refl address)
            ((named, omega (arith, counted), omega arith, runs), old))
      | inr differ ↦
          rw (differ, join)
            (update-Tracked (lookup sid s.pollers) s.heap s.next_address
              (streams_of sid s.open_streams) address sid other _ differ named (h differ))
    ]

join-IsAimed :
    (s : Pollers) (other : String) (address : ℕ)
    → lookup other s.pollers ≡ some address
    → IsAimed s
    → IsAimed (join other address s)
unfolding join
join-IsAimed s other address found h = (found, h)

-- An interval that runs is the one of the poller that the map has for its session.
abbrev pub IsSole : Pollers → Type 0
IsSole s = (a : ℕ) → (s.heap a).is_running ≡ true → lookup (s.heap a).session_id s.pollers ≡ some a

-- What a new value of a cell has in common with the old one, no cell shows.
pub update-same :
    {A : Type 0} (read : Poller → A) (heap : ℕ → Poller) (address a : ℕ) (p : Poller)
    → read p ≡ read (heap address)
    → read (update heap address p a) ≡ read (heap a)
update-same read heap address a p e = elim (Bool-cases (eqb a address)) [
  | inl same ↦ let at : address ≡ a = ground arith in rw same (e ∙ ap (λ b. read (heap b)) at)
  | inr differ ↦ rw differ refl
]

join-IsSole :
    (s : Pollers) (other : String) (address : ℕ) → IsSole s → IsSole (join other address s)
unfolding join
join-IsSole s other address h a runs =
    let p = record (s.heap address) { ref_count = (s.heap address).ref_count + 1 } in
    rw (update-same (λ q. q.session_id) s.heap address a p refl, join)
      (h a (sym (update-same (λ q. q.is_running) s.heap address a p refl) ∙ runs))

abbrev pub IsSound : Pollers → Type 0
IsSound s = ((sid : String) → IsTracked s sid) × IsAimed s × IsSole s

-- A session has its poller, or it has none and no open stream.
pub known :
    (s : Pollers) (sid : String) (address : ℕ)
    → IsTracked s sid
    → lookup sid s.pollers ≡ some address
    → Serves (s.heap address) sid (streams_of sid s.open_streams) × (address < s.next_address)
known s sid address h e = rw e at h

unknown :
    (s : Pollers) (sid : String)
    → IsTracked s sid
    → lookup sid s.pollers ≡ none
    → streams_of sid s.open_streams ≡ 0
unknown s sid h e = rw e at h

join-IsSound :
    (s : Pollers) (sid : String) (address : ℕ)
    → IsSound s
    → lookup sid s.pollers ≡ some address
    → IsSound (join sid address s)
join-IsSound s sid address h e =
    let (serves, old) = known s sid address (h.0 sid) e in
    (
      λ other.
          join-IsTracked s other sid address e serves.0 serves.1 serves.3 old (λ differ. h.0 other),
      join-IsAimed s sid address e h.1,
      join-IsSole s sid address h.2,
    )

pub insert-lookup :
    (sid other : String) (fresh a : ℕ) (m : Dict ℕ)
    → lookup sid m ≡ none
    → lookup other m ≡ some a
    → lookup other (insert sid fresh m) ≡ some a
insert-lookup sid other fresh a m e h = elim (Bool-cases (sid == other)) [
  | inl same ↦ let clash = sym e ∙ (ap (λ k. lookup k m) ((eq_iff sid other).0 same) ∙ h) in cc
  | inr differ ↦ rw (lookup-insert, differ) h
]

pub All-map :
    {A : Type 0} {P Q : A → Type 0} (xs : List A) → ((x : A) → P x → Q x) → All P xs → All Q xs
All-map [] f h = tt
All-map (x ∷ xs) f h = (f x h.0, All-map xs f h.1)

-- A new poller is at no address in use.
fresh-Tracked :
    (found : Option ℕ) (heap : ℕ → Poller) (next n : ℕ) (sid : String) (p : Poller)
    → Tracked found heap next sid n
    → Tracked found (update heap next p) (suc next) sid n
fresh-Tracked none heap next n sid p h = h
fresh-Tracked (some a) heap next n sid p h =
    let differ : eqb a next ≡ false = ground (arith, h.1) in rw differ (h.0, omega (arith, h.1))

create-IsTracked :
    (s : Pollers) (sid other : String)
    → (sid == other) ≡ false
    → IsTracked s other
    → IsTracked (create sid s) other
unfolding create
create-IsTracked s sid other differ h =
    rw (lookup-insert, differ)
      (fresh-Tracked (lookup other s.pollers) s.heap s.next_address
        (streams_of other s.open_streams) other _ h)

create-IsSole :
    (s : Pollers) (sid : String) → lookup sid s.pollers ≡ none → IsSole s → IsSole (create sid s)
unfolding create
create-IsSole s sid e h a runs = elim (Bool-cases (eqb a s.next_address)) [
  | inl same ↦ rw (same, lookup-insert_self) (ap some (ground arith))
  | inr differ ↦
      rw (differ, create)
        (insert-lookup sid _ s.next_address a s.pollers e (h a (rw differ at runs)))
]

pub subscribe-IsSound : (sid : String) (s : Pollers) → IsSound s → IsSound (subscribe sid s)
unfolding subscribe subscribe_at create
subscribe-IsSound sid s h = elim (Option-cases (lookup sid s.pollers)) [
  | inl unmet ↦
      let self = eqb_refl s.next_address in
      rw (unmet, subscribe)
        (
          λ other.
              join-IsTracked (create sid s) other sid s.next_address
                (lookup-insert_self sid s.next_address s.pollers) (rw self refl)
                (rw self (sym (unknown s sid (h.0 sid) unmet))) (rw self refl) (omega arith)
                (λ differ. create-IsTracked s sid other differ (h.0 other)),
          join-IsAimed (create sid s) sid s.next_address
              (lookup-insert_self sid s.next_address s.pollers)
              (All-map s.open_streams
                (λ t e.
                  insert-lookup sid t.session_id s.next_address t.active_state s.pollers unmet e)
                h.1),
          join-IsSole (create sid s) sid s.next_address (create-IsSole s sid unmet h.2),
        )
  | inr (a, met) ↦ rw (met, subscribe) (join-IsSound s sid a h met)
]
