-- ===== src/Tdma/Wait.antt =====
-- The loop of `wait_for_slot`: what holds when it returns, that it returns, and when it cannot.
use mathlib.Core.Bool.{false≢true}
use qysnc_submission.Common.{
  ℕ, ◌+◌, ◌≤◌, ◌<◌, ◌≡◌, refl, sym, ◌∙◌, ap, subst, ◌⊎◌, inl, inr, true, false, List, [], ◌∷◌,
  Option, Option-cases, none, some, arith,
}
use qysnc_submission.Tdma.{
  Scheduler, Decision, go, nothing_owned, sleep, owns_slot, decide, note_wait, wait_loop,
}
use qysnc_submission.Tdma.{slot_of}
use qysnc_submission.Tdma.Slots.{WellTimed, slot_at, room, slot_of-eq, slot_at-until, room-until}
use qysnc_submission.Tdma.Decide.{decide-go, decide_of_room, decide-nothing_owned, decide-sleep}

-- Waiting changes the two counters of waits alone.
pub record SameSends (s s' : Scheduler) : Type 0 where
  pub same_party : s'.party ≡ s.party
  pub same_sched : s'.sched ≡ s.sched
  pub same_disabled : s'.disabled ≡ s.disabled
  pub same_owns : s'.owns ≡ s.owns
  pub same_in : s'.in_slot_sends ≡ s.in_slot_sends
  pub same_out : s'.out_of_slot_sends ≡ s.out_of_slot_sends
  pub same_spans : s'.boundary_spans ≡ s.boundary_spans
  pub same_hist : s'.slot_hist ≡ s.slot_hist

pub Decision-cases : (c : Decision) → (c ≡ go) ⊎ (c ≡ nothing_owned) ⊎ ((d : ℕ) × (c ≡ sleep d))
Decision-cases go = inl refl
Decision-cases nothing_owned = inr (inl refl)
Decision-cases (sleep d) = inr (inr (d, refl))

-- What holds when the loop returns at `t` in the state `s'`.
pub record Stopped (s : Scheduler) (guard : ℕ) (s' : Scheduler) (t : ℕ) : Type 0 where
  pub same : SameSends s s'
  pub stops :
      ((owns_slot s (slot_at s t) ≡ true) × (guard < room s t)) ⊎ ((j : ℕ) → owns_slot s j ≡ false)

SameSends-refl : (s : Scheduler) → SameSends s s
SameSends-refl s = record {
  same_party = refl;
  same_sched = refl;
  same_disabled = refl;
  same_owns = refl;
  same_in = refl;
  same_out = refl;
  same_spans = refl;
  same_hist = refl;
}

module _ (s : Scheduler) (d : ℕ) where
  note_wait-WellTimed : WellTimed s → WellTimed (note_wait s d)
  unfolding note_wait
  note_wait-WellTimed w = record {
    some_slot = w.some_slot;
    some_time = w.some_time;
    flags = w.flags;
    few_slots = w.few_slots;
    no_wrap = w.no_wrap;
  }

  owns_slot-note_wait : (j : ℕ) → owns_slot (note_wait s d) j ≡ owns_slot s j
  unfolding note_wait owns_slot
  owns_slot-note_wait j = refl

  note_wait-Stopped :
      {guard : ℕ} {s' : Scheduler} {t : ℕ}
      → Stopped (note_wait s d) guard s' t
      → Stopped s guard s' t
  unfolding note_wait owns_slot
  note_wait-Stopped r = record {
    same = record {
      same_party = r.same.same_party;
      same_sched = r.same.same_sched;
      same_disabled = r.same.same_disabled;
      same_owns = r.same.same_owns;
      same_in = r.same.same_in;
      same_out = r.same.same_out;
      same_spans = r.same.same_spans;
      same_hist = r.same.same_hist;
    };
    stops = r.stops;
  }

pub wait-go :
    (s : Scheduler) (guard now : ℕ) (readings : List ℕ)
    → decide s guard now ≡ go
    → wait_loop s guard (now ∷ readings) ≡ some (s, now, readings)
unfolding wait_loop
wait-go s guard now readings e = rw (e, wait_loop)

pub wait-nothing_owned :
    (s : Scheduler) (guard now : ℕ) (readings : List ℕ)
    → decide s guard now ≡ nothing_owned
    → wait_loop s guard (now ∷ readings) ≡ some (s, now, readings)
unfolding wait_loop
wait-nothing_owned s guard now readings e = rw (e, wait_loop)

pub wait-sleep :
    (s : Scheduler) (guard now d : ℕ) (readings : List ℕ)
    → decide s guard now ≡ sleep d
    → wait_loop s guard (now ∷ readings) ≡ wait_loop (note_wait s d) guard readings
unfolding wait_loop
wait-sleep s guard now d readings e = rw (e, wait_loop)

-- A result of the loop, if it returns.
abbrev Returns : Option (Scheduler × ℕ × List ℕ) → (Scheduler → ℕ → Type 0) → Type 0
Returns none P = Unit
Returns (some (s', t, rest)) P = P s' t

Returns_mono :
    {P Q : Scheduler → ℕ → Type 0} (o : Option (Scheduler × ℕ × List ℕ))
    → ((s' : Scheduler) (t : ℕ) → P s' t → Q s' t)
    → Returns o P
    → Returns o Q
Returns_mono none f r = tt
Returns_mono (some (s', t, rest)) f r = f s' t r

wait-Returns :
    (s : Scheduler) (guard : ℕ) (readings : List ℕ)
    → WellTimed s
    → Returns (wait_loop s guard readings) (Stopped s guard)
wait-Returns s guard [] w = unfold wait_loop in tt
wait-Returns s guard (now ∷ readings) w = elim (Decision-cases (decide s guard now)) [
  | inl e ↦
      rw (wait-go s guard now readings e)
        (record { same = SameSends-refl s; stops = inl (decide-go s w guard now e) })
  | inr (inl e) ↦
      rw (wait-nothing_owned s guard now readings e)
        (record { same = SameSends-refl s; stops = inr (decide-nothing_owned s w guard now e) })
  | inr (inr (d, e)) ↦ rw (wait-sleep s guard now d readings e) (
      Returns_mono _ (λ s' t r. note_wait-Stopped s d r)
        (wait-Returns (note_wait s d) guard readings (note_wait-WellTimed s d w)))
]

wait-Stopped :
    (s : Scheduler) (guard : ℕ) (readings : List ℕ) {s' : Scheduler} {t : ℕ} {rest : List ℕ}
    → WellTimed s
    → wait_loop s guard readings ≡ some (s', t, rest)
    → Stopped s guard s' t
wait-Stopped s guard readings w e =
    subst (λ o. Returns o (Stopped s guard)) e (wait-Returns s guard readings w)

-- If the party owns a slot, the loop ends only in an owned slot with more room than the guard, and it
-- has changed nothing but the counters of waits.
pub wait_loop_owned :
    (s : Scheduler) (guard : ℕ) (readings : List ℕ) {s' : Scheduler} {t : ℕ} {rest : List ℕ} (j : ℕ)
    → WellTimed s
    → owns_slot s j ≡ true
    → wait_loop s guard readings ≡ some (s', t, rest)
    → (owns_slot s (slot_of s t) ≡ true) × (guard < room s t) × SameSends s s'
wait_loop_owned s guard readings {t} j w o e =
    let r = wait-Stopped s guard readings w e in
    elim r.stops [
      | inl (owned, roomy) ↦ (ap (owns_slot s) (slot_of-eq s w t) ∙ owned, roomy, r.same)
      | inr none_owned ↦ absurd (false≢true (sym (none_owned j) ∙ o))
    ]

-- With a guard of a whole slot or more, the loop of a party that owns a slot goes on sleeping.
pub wait_loop_stuck :
    (s : Scheduler) (guard : ℕ) (readings : List ℕ) (j : ℕ)
    → WellTimed s
    → owns_slot s j ≡ true
    → s.sched.slot_ns ≤ guard
    → wait_loop s guard readings ≡ none
wait_loop_stuck s guard readings j w o h = elim (Option-cases (wait_loop s guard readings)) [
  | inl e ↦ e
  | inr (r, e) ↦ absurd (omega (arith, (wait_loop_owned s guard readings j w o e).1))
]

-- With a guard below the slot, the loop sleeps at most once if the sleep ends on time: at the time
-- asked for or later, by less than the slot less the guard.
pub wait_loop_returns :
    (s : Scheduler) (guard now next : ℕ) (rest : List ℕ)
    → WellTimed s
    → guard < s.sched.slot_ns
    → ((d : ℕ)
        → decide s guard now ≡ sleep d
        → (now + d ≤ next) × (next + guard < now + d + s.sched.slot_ns))
    → (s' : Scheduler) × (t : ℕ) × (left : List ℕ) × (wait_loop s guard (now ∷ next ∷ rest)
        ≡ some (s', t, left))
wait_loop_returns s guard now next rest w h on_time = elim (Decision-cases (decide s guard now)) [
  | inl e ↦ (s, now, next ∷ rest, wait-go s guard now (next ∷ rest) e)
  | inr (inl e) ↦ (s, now, next ∷ rest, wait-nothing_owned s guard now (next ∷ rest) e)
  | inr (inr (d, e)) ↦ (
    note_wait s d,
    next,
    rest,
    wait-sleep s guard now d (next ∷ rest) e ∙ wait-go (note_wait s d) guard next rest (awake d e),
  )
]
  where
    awake : (d : ℕ) → decide s guard now ≡ sleep d → decide (note_wait s d) guard next ≡ go
    awake d e =
        let (_, owned, whole, _) = decide-sleep s w guard now d e in
        let (early, late) = on_time d e in
        decide_of_room (note_wait s d) (note_wait-WellTimed s d w) guard next
          (unfold note_wait owns_slot in
            ap (owns_slot s) (slot_at-until s w (now + d) next early (omega arith)) ∙ owned)
          (unfold note_wait in omega (arith, room-until s w (now + d) next early (omega arith)))
