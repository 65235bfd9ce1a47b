-- ===== src/Tdma/Decide.antt =====
-- One round of the loop of `wait_for_slot`: what `decide` finds, in terms of the time alone.
use native.Mathlib.Nat.{
  mod-add-mod, mod-lt, mul-le-mul_right, div-add-mod', add-mul-div_right, add_comm, mul-div_cancel,
  mul-mod_left, le-div_iff_mul-le, div-lt_iff_lt-mul,
}
use native.Mathlib.Decide.{dec_lt}
use qysnc_submission.Common.Arith.{mod_cycle, index_of_mod, offset_of_mod}
use qysnc_submission.Common.{
  ℕ, ◌+◌, ◌-◌, ◌*◌, ◌/◌, ◌%◌, ◌^◌, ◌≤◌, ◌<◌, ◌≡◌, sym, ◌∙◌, ap, inl, inr, Bool, true, false, ◌&&◌,
  arith, u64, ltb, ◌==◌, if◌then◌else◌,
}
use qysnc_submission.Tdma.{
  Scheduler, Decision, go, nothing_owned, sleep, owns_slot, cycle_slots, next_owned, decide,
}
use qysnc_submission.Tdma.Search.{
  Search, next_owned-Search, cover, owns_slot-flag, owns_slot-above, owns_slot-ahead,
}
use qysnc_submission.Tdma.Slots.{WellTimed, cycle_ns-eq, slot_at, room, fits, index-u32, slot_at-lt}

-- The sleep that the search proposes.
abbrev ahead : Scheduler → ℕ → ℕ
ahead s t = next_owned s (slot_at s t) (t % (s.sched.slot_ns * cycle_slots s)) 1 (cycle_slots s)

abbrev stays : Scheduler → ℕ → ℕ → Bool
stays s guard t = owns_slot s (slot_at s t) && ltb guard (room s t)

choose : Bool → ℕ → Decision
choose stay delta = if stay then go else if delta == 0 then nothing_owned else sleep delta

choose-nothing_owned : (stay : Bool) (d : ℕ) → choose stay d ≡ nothing_owned → d ≡ 0
unfolding choose
choose-nothing_owned stay d h = ground arith

choose-sleep : (stay : Bool) (d e : ℕ) → choose stay d ≡ sleep e → (d ≡ e) × (0 < e)
unfolding choose
choose-sleep stay d e h = ground arith

module _ (s : Scheduler) (w : WellTimed s) where
  room-eq : (t : ℕ) → u64 (s.sched.slot_ns + 2 ^ 64 - t % s.sched.slot_ns) ≡ room s t
  room-eq t = omega (arith, mod-lt t w.some_time, fits s w 1 (omega (arith, w.some_slot)))

  decide_lem : (guard t : ℕ) → decide s guard t ≡ choose (stays s guard t) (ahead s t)
  unfolding decide choose
  decide_lem guard t = rw (
    cycle_ns-eq s w,
    index_of_mod s.sched.slot_ns (cycle_slots s) w.some_time w.some_slot t,
    index-u32 s w (t / s.sched.slot_ns),
    offset_of_mod s.sched.slot_ns (cycle_slots s) w.some_time w.some_slot t,
    room-eq t,
  )

  ahead-Search :
      (t : ℕ)
      → Search s (slot_at s t) (t % (s.sched.slot_ns * cycle_slots s)) 1 (cycle_slots s) (ahead s t)
  ahead-Search t =
      next_owned-Search s w (slot_at s t) _ 1 (cycle_slots s) (slot_at-lt s w t)
        (omega (
          arith,
          mod_cycle s.sched.slot_ns (cycle_slots s) w.some_time w.some_slot t,
          mod-lt t w.some_time,
        ))
        (omega arith)

  -- The search in terms of the time: `d` leads to the start of the slot `k`.
  arrival :
      (t d k : ℕ)
      → d + t % (s.sched.slot_ns * cycle_slots s) ≡ (slot_at s t + k) * s.sched.slot_ns
      → d + t % s.sched.slot_ns ≡ k * s.sched.slot_ns
  arrival t d k e =
      omega (arith, mod_cycle s.sched.slot_ns (cycle_slots s) w.some_time w.some_slot t)

  -- The time `e` later, counted from the start of the slot of `t`.
  later : (t e : ℕ) → t + e ≡ t % s.sched.slot_ns + e + t / s.sched.slot_ns * s.sched.slot_ns
  later t e = omega (arith, div-add-mod' t s.sched.slot_ns)

  later_index :
      (t e : ℕ)
      → (t + e) / s.sched.slot_ns
        ≡ t / s.sched.slot_ns + (t % s.sched.slot_ns + e) / s.sched.slot_ns
  later_index t e =
      ap (λ x. x / s.sched.slot_ns) (later t e)
      ∙ add-mul-div_right (t % s.sched.slot_ns + e) (t / s.sched.slot_ns) w.some_time
      ∙ add_comm _ _

  later_offset : (t e : ℕ) → (t + e) % s.sched.slot_ns ≡ (t % s.sched.slot_ns + e) % s.sched.slot_ns
  later_offset t e = sym (mod-add-mod t s.sched.slot_ns e)

  index_at :
      (t d k : ℕ)
      → d + t % s.sched.slot_ns ≡ k * s.sched.slot_ns
      → (t + d) / s.sched.slot_ns ≡ t / s.sched.slot_ns + k
  index_at t d k e =
      later_index t d
      ∙ ap (λ x. t / s.sched.slot_ns + x / s.sched.slot_ns) (add_comm _ d ∙ e)
      ∙ ap (λ x. t / s.sched.slot_ns + x) (mul-div_cancel k w.some_time)

  offset_at :
      (t d k : ℕ) → d + t % s.sched.slot_ns ≡ k * s.sched.slot_ns → (t + d) % s.sched.slot_ns ≡ 0
  offset_at t d k e =
      later_offset t d
      ∙ ap (λ x. x % s.sched.slot_ns) (add_comm _ d ∙ e)
      ∙ mul-mod_left k s.sched.slot_ns

  passed_from : (t x : ℕ) → room s t ≤ x → 1 ≤ (t % s.sched.slot_ns + x) / s.sched.slot_ns
  passed_from t x h = (le-div_iff_mul-le w.some_time).1 (omega arith)

  passed_to :
      (t d x k : ℕ)
      → d + t % s.sched.slot_ns ≡ k * s.sched.slot_ns
      → x < d
      → (t % s.sched.slot_ns + x) / s.sched.slot_ns < k
  passed_to t d x k e h = (div-lt_iff_lt-mul w.some_time).1 (omega arith)

  -- It lets the send start only in an owned slot with more room than the guard.
  pub decide-go :
      (guard t : ℕ)
      → decide s guard t ≡ go
      → (owns_slot s (slot_at s t) ≡ true) × (guard < room s t)
  unfolding choose
  decide-go guard t h = ground (arith, decide_lem guard t)

  pub decide_of_room :
      (guard t : ℕ) → owns_slot s (slot_at s t) ≡ true → guard < room s t → decide s guard t ≡ go
  unfolding choose
  decide_of_room guard t o h = ground (arith, decide_lem guard t)

  -- It gives up only if every flag of the cycle is off.
  pub decide-nothing_owned :
      (guard t : ℕ) → decide s guard t ≡ nothing_owned → (j : ℕ) → owns_slot s j ≡ false
  unfolding choose
  decide-nothing_owned guard t h j = elim (ahead-Search t) [
    | inl (z, all) ↦ elim (dec_lt j (cycle_slots s)) [
      | yes p ↦
          let (k, lo, hi, e) = cover (cycle_slots s) (slot_at s t) j (slot_at-lt s w t) p in
          ap (owns_slot s) (sym e) ∙ owns_slot-flag s w (slot_at s t + k) ∙ all k lo hi
      | no p ↦ owns_slot-above s w j (omega arith)
    ]
    | inr (k, lo, hi, o, dist, before) ↦ absurd (
        omega (
          arith,
          choose-nothing_owned (stays s guard t) (ahead s t) (sym (decide_lem guard t) ∙ h),
          mod_cycle s.sched.slot_ns (cycle_slots s) w.some_time w.some_slot t,
          mod-lt t w.some_time,
          mul-le-mul_right s.sched.slot_ns lo,
        ))
  ]

  -- It sleeps exactly to the start of the next owned slot.
  pub decide-sleep :
      (guard t d : ℕ)
      → decide s guard t ≡ sleep d
      → (0 < d)
        × (owns_slot s (slot_at s (t + d)) ≡ true)
        × (room s (t + d) ≡ s.sched.slot_ns)
        × ((e : ℕ) → room s t ≤ e → e < d → owns_slot s (slot_at s (t + e)) ≡ false)
  unfolding choose
  decide-sleep guard t d h =
      let (e, pos) = choose-sleep (stays s guard t) (ahead s t) d (sym (decide_lem guard t) ∙ h) in
      elim (ahead-Search t) [
        | inl (z, all) ↦ absurd (omega arith)
        | inr (k, lo, hi, o, dist, before) ↦
            let start : d + t % s.sched.slot_ns ≡ k * s.sched.slot_ns =
              arrival t d k (rw (← e) dist) in
            (
              pos,
              owns_slot-ahead s w t (t + d) k (index_at t d k start) ∙ o,
              omega (arith, offset_at t d k start),
              λ x p q.
                  owns_slot-ahead s w t (t + x) _ (later_index t x)
                  ∙ before _ (passed_from t x p) (passed_to t d x k start q),
            )
      ]
