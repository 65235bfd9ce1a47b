-- ===== src/Tdma/Stats.antt =====
-- `mark_post`: how a send is counted, and that the counters agree with one another.
use qysnc_submission.Common.{
  ℕ, zero, suc, ◌+◌, ◌^◌, ◌≤◌, ◌<◌, ◌≡◌, refl, sym, subst, true, false, List, Option, none, [], ◌∷◌,
  some, arith, length, get_or, set, replicate, length-set,
}
use qysnc_submission.Tdma.{
  Scheduler, slot_of, cycle_slots, bump, mark_post, wait_loop, wait_for_slot, wait_and_mark_pre,
  marked, after_loop, read_clock, unscheduled,
}
use qysnc_submission.Tdma.Slots.{WellTimed, slot_of-eq, slot_at-lt}
use qysnc_submission.Tdma.Wait.{SameSends}

WellTimed-same : {s s' : Scheduler} → SameSends s s' → WellTimed s → WellTimed s'
WellTimed-same same w = record {
  some_slot = rw same.same_sched w.some_slot;
  some_time = rw same.same_sched w.some_time;
  flags = rw (same.same_sched, same.same_owns) w.flags;
  few_slots = rw same.same_sched w.few_slots;
  no_wrap = rw same.same_sched w.no_wrap;
}

unfoldable pub sum : List ℕ → ℕ
sum [] = 0
sum (x ∷ xs) = x + sum xs

sum-set : (xs : List ℕ) (i v : ℕ) → i < length xs → sum (set xs i v) + get_or xs i 0 ≡ sum xs + v
unfolding sum
sum-set [] i v h = absurd (omega arith)
sum-set (x ∷ xs) zero v h = omega arith
sum-set (x ∷ xs) (suc i) v h = omega (arith, sum-set xs i v (omega arith))

get_or-le-sum : (xs : List ℕ) (i : ℕ) → get_or xs i 0 ≤ sum xs
unfolding sum
get_or-le-sum [] i = omega arith
get_or-le-sum (x ∷ xs) zero = omega arith
get_or-le-sum (x ∷ xs) (suc i) = omega (arith, get_or-le-sum xs i)

pub sum-replicate : (n : ℕ) → sum (replicate n 0) ≡ 0
unfolding sum
sum-replicate zero = refl
sum-replicate (suc n) = omega (arith, sum-replicate n)

-- Each send is in one cell of the histogram and in one of the two counters, and only sends out of
-- slot are counted as spanning a boundary.
pub record IsBalanced (s : Scheduler) : Type 0 where
  pub cells : length s.slot_hist ≡ cycle_slots s
  pub total : sum s.slot_hist ≡ s.in_slot_sends + s.out_of_slot_sends
  pub spans : s.boundary_spans ≤ s.out_of_slot_sends

hist-total :
    (s : Scheduler) (c : ℕ)
    → IsBalanced s
    → c < cycle_slots s
    → s.in_slot_sends + s.out_of_slot_sends + 1 < 2 ^ 64
    → sum (set s.slot_hist c (bump (get_or s.slot_hist c 0)))
      ≡ s.in_slot_sends + s.out_of_slot_sends + 1
hist-total s c b h few = omega (
  arith,
  sum-set s.slot_hist c (bump (get_or s.slot_hist c 0)) (omega (arith, b.cells)),
  get_or-le-sum s.slot_hist c,
  b.total,
)

-- Counting an enabled send keeps the counters balanced and adds one send, until 2^64 - 1 sends.
pub mark_post-IsBalanced :
    (s : Scheduler) (t_pre t_post : ℕ)
    → WellTimed s
    → IsBalanced s
    → s.disabled ≡ false
    → s.in_slot_sends + s.out_of_slot_sends + 1 < 2 ^ 64
    → IsBalanced (mark_post s t_pre t_post)
      × ((mark_post s t_pre t_post).in_slot_sends + (mark_post s t_pre t_post).out_of_slot_sends
          ≡ s.in_slot_sends + s.out_of_slot_sends + 1)
unfolding mark_post
mark_post-IsBalanced s t_pre t_post w b on few = ground (
  arith,
  hist-total s (slot_of s t_pre) b
      (subst (λ c. c < cycle_slots s) (sym (slot_of-eq s w t_pre)) (slot_at-lt s w t_pre)) few,
  length-set s.slot_hist (slot_of s t_pre) (bump (get_or s.slot_hist (slot_of s t_pre) 0)),
)

-- A disabled scheduler neither waits nor counts: `wait_for_slot` and `wait_and_mark_pre` return at
-- once and read no clock, and `mark_post` changes nothing.
pub disabled_bypass :
    (s : Scheduler) (guard t_pre t_post : ℕ) (readings : List ℕ)
    → s.disabled ≡ true
    → (wait_for_slot s guard readings ≡ some (s, readings))
      × (wait_and_mark_pre s guard readings ≡ unscheduled)
      × (mark_post s t_pre t_post ≡ s)
unfolding mark_post wait_and_mark_pre
disabled_bypass s guard t_pre t_post readings off = (rw off refl, rw off refl, rw off refl)

marked-some :
    (o : Option (Scheduler × ℕ × List ℕ)) (t_pre : ℕ) (left : List ℕ) {s' : Scheduler}
    → read_clock (after_loop o) ≡ marked s' t_pre left
    → (t : ℕ) × (o ≡ some (s', t, t_pre ∷ left))
marked-some none t_pre left e = cc
marked-some (some (s, t, [])) t_pre left e = cc
marked-some (some (s, t, u ∷ us)) t_pre left e = (t, cc)

-- An enabled `wait_and_mark_pre` that returns has waited in the loop, and returns the reading of
-- the clock that follows the one at which the loop ended.
pub wait_and_mark_pre-loop :
    (s : Scheduler) (guard t_pre : ℕ) (readings left : List ℕ) {s' : Scheduler}
    → s.disabled ≡ false
    → wait_and_mark_pre s guard readings ≡ marked s' t_pre left
    → (t : ℕ) × (wait_loop s guard readings ≡ some (s', t, t_pre ∷ left))
unfolding wait_and_mark_pre
wait_and_mark_pre-loop s guard t_pre readings left on e =
    marked-some (wait_loop s guard readings) t_pre left (simp on at e)
