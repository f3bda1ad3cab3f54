-- ===== src/Web/IdleLogout/Timers.antt =====
-- What the timers of use-idle-logout.ts guarantee over every order of events.
use fernbank.Base.{
  ℕ, suc, ◌+◌, ◌-◌, ◌≤◌, ◌≡◌, refl, sym, subst, ◌⊎◌, inl, inr, Bool, true, false, not, ◌&&◌, List,
  [], ◌∷◌, Option, none, some, ltb, leb, eqb, All, arith, Bool-cases, Option-cases,
}
use fernbank.Web.IdleLogout.{
  IdleLogout, Timer, TimerKind, warning, logout, Effect, warns, dismisses, redirects_and_logs_out,
  Event, activity, stays, fires, passes, unmounts, is_referenced, cancel, clear_timers, set_timers,
  schedule_timers, handle_activity, register_activity, find_due, ring, fire, step, run, mount,
  dismissed, idle_timeout_ms,
}

-- A pending timer is the one that its ref names, and a logout is due five minutes behind a time.
abbrev pub Fits : Option ℕ → Option ℕ → ℕ → Timer → Type 0
Fits warning_timer logout_timer since t = elim t.kind [
  | warning ↦ warning_timer ≡ some t.id
  | logout ↦ (logout_timer ≡ some t.id) × (since + idle_timeout_ms ≤ t.due)
]

abbrev pub IsTidy : IdleLogout → Type 0
IsTidy s =
    (s.last_activity ≤ s.now) × All (Fits s.warning_timer s.logout_timer s.last_activity) s.timers

eqb_refl : (n : ℕ) → eqb n n ≡ true
eqb_refl n = ground arith

named : (ref : Option ℕ) (t : Timer) → ref ≡ some t.id → is_referenced ref t ≡ true
named none t e = cc
named (some id) t e = ground (arith, eqb_refl t.id)

-- One of the refs names a timer that fits.
Fits-named :
    (w l : Option ℕ) (since id due : ℕ) (kind : TimerKind)
    → Fits w l since (record { id = id; kind = kind; due = due })
    → (is_referenced w (record { id = id; kind = kind; due = due }) ≡ true)
      ⊎ (is_referenced l (record { id = id; kind = kind; due = due }) ≡ true)
Fits-named w l since id due warning h = inl (named w _ h)
Fits-named w l since id due logout h = inr (named l _ h.0)

cancel-cancel :
    (w l : Option ℕ) (since : ℕ) (ts : List Timer)
    → All (Fits w l since) ts
    → cancel l (cancel w ts) ≡ []
unfolding cancel
cancel-cancel w l since [] h = refl
cancel-cancel w l since (t ∷ ts) h =
    let rest = cancel-cancel w l since ts h.1 in
    elim (Fits-named w l since t.id t.due t.kind h.0) [
      | inl by_warning ↦ rw by_warning rest
      | inr by_logout ↦ elim (Bool-cases (is_referenced w t)) [
        | inl first ↦ rw first rest
        | inr other ↦ rw other (rw by_logout rest)
      ]
    ]

cancel-All :
    (P : Timer → Type 0) (ref : Option ℕ) (ts : List Timer) → All P ts → All P (cancel ref ts)
unfolding cancel
cancel-All P ref [] h = tt
cancel-All P ref (t ∷ ts) h = elim (Bool-cases (is_referenced ref t)) [
  | inl same ↦ rw same (cancel-All P ref ts h.1)
  | inr other ↦ rw other (h.0, cancel-All P ref ts h.1)
]

schedule_timers-IsTidy :
    (s : IdleLogout) (since : ℕ)
    → s.last_activity ≤ s.now
    → All (Fits s.warning_timer s.logout_timer since) s.timers
    → IsTidy (schedule_timers s)
unfolding schedule_timers set_timers clear_timers
schedule_timers-IsTidy s since past h = (
  past,
  (
    refl,
    (
      (refl, omega arith),
      subst
          (All (
            Fits (schedule_timers s).warning_timer (schedule_timers s).logout_timer
              s.last_activity))
          (sym (cancel-cancel s.warning_timer s.logout_timer since s.timers h)) tt,
    ),
  ),
)

register_activity-IsTidy :
    (force : Bool) (s : IdleLogout) → IsTidy s → IsTidy (register_activity force s)
unfolding register_activity
register_activity-IsTidy force s h =
    elim (Bool-cases (not force && ltb (s.now - s.last_activity) 2000)) [
      | inl ignored ↦ rw ignored h
      | inr counted ↦ rw counted (
          schedule_timers-IsTidy
            (record s {
              last_activity = s.now;
              toast_id = none;
              effects = dismissed s.toast_id s.effects;
            })
            s.last_activity (omega arith) h.1)
    ]

some_injective : {A : Type 0} {a b : A} → some a ≡ some b → a ≡ b
some_injective e = cc

find_due-Fits :
    (P : Timer → Type 0) (now id : ℕ) (ts : List Timer) (t : Timer)
    → All P ts
    → find_due now id ts ≡ some t
    → P t × (t.due ≤ now)
unfolding find_due
find_due-Fits P now id [] t h e = cc
find_due-Fits P now id (u ∷ ts) t h e = elim (Bool-cases (eqb u.id id && leb u.due now)) [
  | inl found ↦
      subst (λ v. P v × (v.due ≤ now)) (some_injective (rw found at e)) (h.0, ground arith)
  | inr other ↦ find_due-Fits P now id ts t h.1 (rw other at e)
]

ring-IsTidy : (kind : TimerKind) (s : IdleLogout) → IsTidy s → IsTidy (ring kind s)
unfolding ring
ring-IsTidy warning s h = h
ring-IsTidy logout s h = h

fire-IsTidy : (id : ℕ) (s : IdleLogout) → IsTidy s → IsTidy (fire id s)
unfolding fire
fire-IsTidy id s h = elim (Option-cases (find_due s.now id s.timers)) [
  | inl none_due ↦ rw (none_due, fire) h
  | inr (t, due) ↦
      rw (due, fire)
        (ring-IsTidy t.kind (record s { timers = cancel (some id) s.timers })
          (h.0, cancel-All _ (some id) s.timers h.1))
]

handle_activity-IsTidy :
    (listening : Bool) (s : IdleLogout) → IsTidy s → IsTidy (handle_activity listening s)
unfolding handle_activity
handle_activity-IsTidy true s h = register_activity-IsTidy false s h
handle_activity-IsTidy false s h = h

step-IsTidy : (s : IdleLogout) (e : Event) → IsTidy s → IsTidy (step s e)
unfolding step clear_timers
step-IsTidy s activity h = handle_activity-IsTidy s.listening s h
step-IsTidy s stays h = register_activity-IsTidy true s h
step-IsTidy s (fires id) h = fire-IsTidy id s h
step-IsTidy s (passes ms) h = (omega (arith, h.0), h.1)
step-IsTidy s unmounts h = (h.0, cancel-All _ s.logout_timer _ (cancel-All _ s.warning_timer _ h.1))

pub run-IsTidy : (s : IdleLogout) (es : List Event) → IsTidy s → IsTidy (run s es)
unfolding run
run-IsTidy s [] h = h
run-IsTidy s (e ∷ es) h = run-IsTidy (step s e) es (step-IsTidy s e h)

mount-IsTidy : (now : ℕ) → IsTidy (mount now)
unfolding mount schedule_timers set_timers clear_timers cancel
mount-IsTidy now = (omega arith, (refl, ((refl, omega arith), tt)))

clear_timers-timers : (s : IdleLogout) → IsTidy s → (clear_timers s).timers ≡ []
unfolding clear_timers
clear_timers-timers s h = cancel-cancel s.warning_timer s.logout_timer s.last_activity s.timers h.1

-- How often the user has been signed out.
abbrev pub sign_outs : List Effect → ℕ
sign_outs [] = 0
sign_outs (warns id ∷ es) = sign_outs es
sign_outs (dismisses id ∷ es) = sign_outs es
sign_outs (redirects_and_logs_out ∷ es) = suc (sign_outs es)

ring-sign_outs :
    (w l : Option ℕ) (since id due : ℕ) (kind : TimerKind) (s : IdleLogout)
    → Fits w l since (record { id = id; kind = kind; due = due })
    → (sign_outs (ring kind s).effects ≡ sign_outs s.effects) ⊎ (since + idle_timeout_ms ≤ due)
unfolding ring
ring-sign_outs w l since id due warning s h = inl refl
ring-sign_outs w l since id due logout s h = inr h.1

fire-sign_outs :
    (id : ℕ) (s : IdleLogout)
    → IsTidy s
    → (sign_outs (fire id s).effects ≡ sign_outs s.effects)
      ⊎ (s.last_activity + idle_timeout_ms ≤ s.now)
unfolding fire
fire-sign_outs id s h = elim (Option-cases (find_due s.now id s.timers)) [
  | inl none_due ↦ rw (none_due, fire) (inl refl)
  | inr (t, due) ↦
      let (fits, late) =
        find_due-Fits (Fits s.warning_timer s.logout_timer s.last_activity) s.now id s.timers t h.1
          due in
      elim (ring-sign_outs s.warning_timer s.logout_timer s.last_activity t.id t.due t.kind
        (record s { timers = cancel (some id) s.timers }) fits) [
          | inl same ↦ rw (due, fire) (inl same)
          | inr idle ↦ inr (omega arith)
        ]
]

-- From the moment the hook is enabled, over every order of events: a timer that goes off signs the
-- user out only if five minutes have gone since the last activity that was counted, and unmounting
-- leaves no timer pending.
pub run-idle :
    (now id : ℕ) (es : List Event)
    → ((sign_outs (step (run (mount now) es) (fires id)).effects
          ≡ sign_outs (run (mount now) es).effects)
        ⊎ ((run (mount now) es).last_activity + 300000 ≤ (run (mount now) es).now))
      × ((step (run (mount now) es) unmounts).timers ≡ [])
unfolding step
run-idle now id es =
    let tidy = run-IsTidy (mount now) es (mount-IsTidy now) in
    (fire-sign_outs id (run (mount now) es) tidy, clear_timers-timers (run (mount now) es) tidy)
