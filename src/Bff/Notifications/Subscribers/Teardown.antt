-- ===== src/Bff/Notifications/Subscribers/Teardown.antt =====
-- That the teardown of a stream in notification-poller.service.ts keeps what ties the pollers to the
-- open streams.
use fernbank.Base.{
  ℕ, suc, ◌-◌, ◌<◌, ◌≡◌, refl, ap, sym, subst, ◌∙◌, inl, inr, true, false, List, [], ◌∷◌, String,
  Option, some, leb, eqb, ◌==◌, eq_iff, eq_refl, All, arith, Bool-cases, Option-cases,
}
use fernbank.Base.Dict.{Dict, lookup, remove, lookup-remove, lookup-remove_self}
use fernbank.Bff.Notifications.Subscribers.{
  Poller, Stream, Pollers, update, find_stream, drop_stream, release, tear_down,
}
use fernbank.Bff.Notifications.Subscribers.Tracking.{
  streams_of, Serves, Tracked, IsTracked, IsSound, eqb_refl, update-Tracked, update-same, known,
}

some_injective : {A : Type 0} {a b : A} → some a ≡ some b → a ≡ b
some_injective e = cc

-- A stream that is found is one of the open ones, and dropping it takes it away and no other.
find_stream-All :
    (P : Stream → Type 0) (id : ℕ) (ts : List Stream) (t : Stream)
    → All P ts
    → find_stream id ts ≡ some t
    → P t
unfolding find_stream
find_stream-All P id [] t h e = cc
find_stream-All P id (u ∷ ts) t h e = elim (Bool-cases (eqb u.id id)) [
  | inl same ↦ subst P (some_injective (rw same at e)) h.0
  | inr other ↦ find_stream-All P id ts t h.1 (rw other at e)
]

drop_stream-All :
    (P : Stream → Type 0) (id : ℕ) (ts : List Stream) → All P ts → All P (drop_stream id ts)
unfolding drop_stream
drop_stream-All P id [] h = tt
drop_stream-All P id (u ∷ ts) h = elim (Bool-cases (eqb u.id id)) [
  | inl same ↦ rw same h.1
  | inr other ↦ rw other (h.0, drop_stream-All P id ts h.1)
]

drop_stream-streams_of :
    (sid : String) (id : ℕ) (ts : List Stream) (t : Stream)
    → find_stream id ts ≡ some t
    → streams_of sid (t ∷ drop_stream id ts) ≡ streams_of sid ts
unfolding find_stream drop_stream
drop_stream-streams_of sid id [] t e = cc
drop_stream-streams_of sid id (u ∷ ts) t e = elim (Bool-cases (eqb u.id id)) [
  | inl same ↦ rw same (ap (λ v. streams_of sid (v ∷ ts)) (sym (some_injective (rw same at e))))
  | inr other ↦
      let rest = drop_stream-streams_of sid id ts t (rw other at e) in
      rw (other, drop_stream) (ground (arith, rest))
]

-- A session without a stream has none in the list.
strangers :
    (sid : String) (ts : List Stream)
    → streams_of sid ts ≡ 0
    → All (λ u. (u.session_id == sid) ≡ false) ts
strangers sid [] e = tt
strangers sid (u ∷ ts) e = elim (Bool-cases (u.session_id == sid)) [
  | inl same ↦ cc (rw same at e)
  | inr differ ↦ (differ, strangers sid ts (rw differ at e))
]

All-zip :
    {A : Type 0} {P Q R : A → Type 0} (xs : List A)
    → ((x : A) → P x → Q x → R x)
    → All P xs
    → All Q xs
    → All R xs
All-zip [] f g h = tt
All-zip (x ∷ xs) f g h = (f x g.0 h.0, All-zip xs f g.1 h.1)

remove-lookup :
    (sid other : String) (m : Dict ℕ) (found : Option ℕ)
    → (other == sid) ≡ false
    → lookup other m ≡ found
    → lookup other (remove sid m) ≡ found
remove-lookup sid other m found differ h =
    ground (arith, lookup-remove sid other m, eq_iff sid other, eq_iff other sid, h)

-- What a teardown meets: the poller of the stream's session, which counts the stream.
module _ (s : Pollers) (id : ℕ) (t : Stream) (h : IsSound s)
    (found : find_stream id s.open_streams ≡ some t) where
  left : ℕ
  left = streams_of t.session_id (drop_stream id s.open_streams)

  aimed : lookup t.session_id s.pollers ≡ some t.active_state
  aimed = find_stream-All _ id s.open_streams t h.1 found

  serves :
      Serves (s.heap t.active_state) t.session_id (suc left) × (t.active_state < s.next_address)
  unfolding left
  serves =
      let counted =
        rw (eq_refl t.session_id) at
          (drop_stream-streams_of t.session_id id s.open_streams t found) in
      subst (λ n. Serves (s.heap t.active_state) t.session_id n × (t.active_state < s.next_address))
        (sym counted) (known s t.session_id t.active_state (h.0 t.session_id) aimed)

  -- The other sessions count the same streams.
  others :
      (sid : String) (p : Poller)
      → (t.session_id == sid) ≡ false
      → Tracked
          (lookup sid s.pollers)
          (update s.heap t.active_state p)
          s.next_address
          sid
          (streams_of sid (drop_stream id s.open_streams))
  others sid p differ =
      let same_count = rw differ at (drop_stream-streams_of sid id s.open_streams t found) in
      rw same_count (
        update-Tracked (lookup sid s.pollers) s.heap s.next_address (streams_of sid s.open_streams)
          t.active_state sid t.session_id p differ serves.0.0 (h.0 sid))

  count_left : (s.heap t.active_state).ref_count - 1 ≡ left
  count_left = omega (arith, serves.0.1)

  -- A running poller at another address is another session's.
  elsewhere :
      (a : ℕ)
      → eqb a t.active_state ≡ false
      → (s.heap a).is_running ≡ true
      → ((s.heap a).session_id == t.session_id) ≡ false
  elsewhere a differ runs = elim (Bool-cases ((s.heap a).session_id == t.session_id)) [
    | inl same ↦
        let at =
          ap (λ k. lookup k s.pollers) (sym ((eq_iff (s.heap a).session_id t.session_id).0 same)) in
        let clash = some_injective (sym aimed ∙ (at ∙ h.2 a runs)) in ground (arith, clash, differ)
    | inr other ↦ other
  ]

  -- `clearInterval` and `pollers.delete`: the last stream of the session has gone.
  last-IsSound :
      left ≡ 0
      → IsSound (record s {
        pollers = remove t.session_id s.pollers;
        heap =
            update s.heap t.active_state
              (record (s.heap t.active_state) { ref_count = left; is_running = false });
        open_streams = drop_stream id s.open_streams;
      })
  unfolding left
  last-IsSound none_left = (
    λ sid. elim (Bool-cases (t.session_id == sid)) [
      | inl same ↦
          subst
            (IsTracked (record s {
              pollers = remove t.session_id s.pollers;
              heap =
                  update s.heap t.active_state
                    (record (s.heap t.active_state) { ref_count = left; is_running = false });
              open_streams = drop_stream id s.open_streams;
            }))
            ((eq_iff t.session_id sid).0 same)
            (rw (lookup-remove_self t.session_id s.pollers) none_left)
      | inr differ ↦ rw (lookup-remove t.session_id sid s.pollers, differ) (others sid _ differ)
    ],
    All-zip _ (λ u differ at. remove-lookup t.session_id u.session_id s.pollers _ differ at)
        (strangers t.session_id (drop_stream id s.open_streams) none_left)
        (drop_stream-All _ id s.open_streams h.1),
    λ a runs. elim (Bool-cases (eqb a t.active_state)) [
      | inl same ↦ cc (rw same at runs)
      | inr differ ↦ rw differ (
          remove-lookup t.session_id (s.heap a).session_id s.pollers _
            (elsewhere a differ (rw differ at runs)) (h.2 a (rw differ at runs)))
    ],
  )

  more-IsSound :
      0 < left
      → IsSound (record s {
        heap = update s.heap t.active_state (record (s.heap t.active_state) { ref_count = left });
        open_streams = drop_stream id s.open_streams;
      })
  unfolding left
  more-IsSound some_left =
      let p = record (s.heap t.active_state) { ref_count = left } in
      (
        λ sid. elim (Bool-cases (t.session_id == sid)) [
          | inl same ↦
              subst
                (IsTracked (record s {
                  heap = update s.heap t.active_state p;
                  open_streams = drop_stream id s.open_streams;
                }))
                ((eq_iff t.session_id sid).0 same)
                (rw (aimed, eqb_refl t.active_state)
                  ((serves.0.0, refl, some_left, serves.0.3), serves.1))
          | inr differ ↦ others sid p differ
        ],
        drop_stream-All _ id s.open_streams h.1,
        λ a runs.
            rw (update-same (λ q. q.session_id) s.heap t.active_state a p refl)
              (h.2 a (sym (update-same (λ q. q.is_running) s.heap t.active_state a p refl) ∙ runs)),
      )

pub tear_down-IsSound : (id : ℕ) (s : Pollers) → IsSound s → IsSound (tear_down id s)
unfolding tear_down release
tear_down-IsSound id s h = elim (Option-cases (find_stream id s.open_streams)) [
  | inl unmet ↦ rw (unmet, tear_down) h
  | inr (t, met) ↦ elim (Bool-cases (leb (left s id t h met) 0)) [
    | inl last ↦
        rw (met, tear_down, count_left s id t h met, last)
          (last-IsSound s id t h met (ground arith))
    | inr more ↦
        rw (met, tear_down, count_left s id t h met, more)
          (more-IsSound s id t h met (ground arith))
  ]
]
