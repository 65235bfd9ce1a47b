-- ===== src/Tdma/Slots.antt =====
-- Where a time falls in the cycle: the slot and the position in it, in terms of the time alone.
use native.Mathlib.Nat.{
  mod-lt, mod-eq_of_lt, mod-add-mod, mul-le-mul_right, div-add-mod', add-sub_of_le,
}
use qysnc_submission.Common.Arith.{index_of_mod, div_of_inside}
use qysnc_submission.Common.{
  ℕ, ◌+◌, ◌-◌, ◌*◌, ◌/◌, ◌%◌, ◌^◌, ◌≤◌, ◌<◌, ◌≡◌, sym, ◌∙◌, ap, arith, length, u32,
}
use qysnc_submission.Tdma.{Scheduler, slot_of, cycle_slots, cycle_ns}

-- The schedule is usable, has one flag for each slot, and two cycles fit `uint64_t`.
pub record WellTimed (s : Scheduler) : Type 0 where
  pub some_slot : 0 < cycle_slots s
  pub some_time : 0 < s.sched.slot_ns
  pub flags : length s.owns ≡ cycle_slots s
  pub few_slots : cycle_slots s < 2 ^ 32
  pub no_wrap : 2 * (s.sched.slot_ns * cycle_slots s) < 2 ^ 64

-- The slot that `t` falls in.
abbrev pub slot_at : Scheduler → ℕ → ℕ
slot_at s t = t / s.sched.slot_ns % cycle_slots s

-- The time that is left of that slot.
abbrev pub room : Scheduler → ℕ → ℕ
room s t = s.sched.slot_ns - t % s.sched.slot_ns

module _ (s : Scheduler) (w : WellTimed s) where
  pub cycle_ns-eq : cycle_ns s ≡ s.sched.slot_ns * cycle_slots s
  cycle_ns-eq = mod-eq_of_lt (omega (arith, w.no_wrap))

  pub index-u32 : (c : ℕ) → u32 (c % cycle_slots s) ≡ c % cycle_slots s
  index-u32 c = mod-eq_of_lt (omega (arith, w.few_slots, mod-lt c w.some_slot))

  -- Two cycles fit `uint64_t`.
  pub fits : (c : ℕ) → c ≤ 2 * cycle_slots s → c * s.sched.slot_ns < 2 ^ 64
  fits c h = omega (arith, mul-le-mul_right s.sched.slot_ns h, w.no_wrap)

  -- No cast and no product of `slot_of` loses anything.
  pub slot_of-eq : (t : ℕ) → slot_of s t ≡ slot_at s t
  unfolding slot_of
  slot_of-eq t =
      rw (cycle_ns-eq, index_of_mod s.sched.slot_ns (cycle_slots s) w.some_time w.some_slot t)
        (index-u32 (t / s.sched.slot_ns))

  pub slot_at-lt : (t : ℕ) → slot_at s t < cycle_slots s
  slot_at-lt t = mod-lt (t / s.sched.slot_ns) w.some_slot

  -- Less time than there is room stays in the slot.
  pub slot_at-stay : (t e : ℕ) → e < room s t → slot_at s (t + e) ≡ slot_at s t
  slot_at-stay t e h = ap (λ c. c % cycle_slots s) same
    where
      same : (t + e) / s.sched.slot_ns ≡ t / s.sched.slot_ns
      same =
          ap (λ x. x / s.sched.slot_ns) (omega (arith, div-add-mod' t s.sched.slot_ns))
          ∙ div_of_inside s.sched.slot_ns (t / s.sched.slot_ns) (t % s.sched.slot_ns + e)
              (omega arith)

  pub room-stay : (t e : ℕ) → e < room s t → room s (t + e) ≡ room s t - e
  room-stay t e h = omega (
    arith,
    sym (mod-add-mod t s.sched.slot_ns e)
        ∙ mod-eq_of_lt {n = t % s.sched.slot_ns + e} {m = s.sched.slot_ns} (omega arith),
  )

  -- A later time before the end of the slot.
  pub slot_at-until : (t u : ℕ) → t ≤ u → u < t + room s t → slot_at s u ≡ slot_at s t
  slot_at-until t u le lt =
      ap (slot_at s) (sym (add-sub_of_le le)) ∙ slot_at-stay t (u - t) (omega arith)

  pub room-until : (t u : ℕ) → t ≤ u → u < t + room s t → room s u + u ≡ room s t + t
  room-until t u le lt =
      ap (λ x. room s x + x) (sym (add-sub_of_le le))
      ∙ omega (arith, room-stay t (u - t) (omega arith))
