-- ===== src/Tdma/Build.antt =====
-- The schedules that are built: `round_robin`, the flags of the constructor, and when it disables.
use native.Mathlib.Decide.{dec_lt}
use qysnc_submission.Common.{
  ℕ, zero, suc, ◌+◌, ◌*◌, ◌^◌, ◌<◌, ◌≡◌, refl, ◌∙◌, ap, ◌↔◌, Bool, true, false, ◌&&◌, ◌||◌, not,
  replicate, lt→ltb, le→ltb, List, [], ◌∷◌, arith, length, get_or, length-replicate, ltb, ◌==◌,
}
use qysnc_submission.Tdma.{
  Schedule, Scheduler, is_ok, owner_rows, round_robin, lists_party, owned_slots, make, owns_slot,
}
use qysnc_submission.Tdma.Slots.{WellTimed}
use qysnc_submission.Tdma.Stats.{IsBalanced, sum-replicate}

length-owned_slots :
    (party : ℕ) (rows : List (List ℕ)) → length (owned_slots party rows) ≡ length rows
unfolding owned_slots
length-owned_slots party [] = refl
length-owned_slots party (row ∷ rows) = ap suc (length-owned_slots party rows)

owned_slots-lists_party :
    (party : ℕ) (rows : List (List ℕ)) (i : ℕ)
    → get_or (owned_slots party rows) i false ≡ lists_party party (get_or rows i [])
unfolding owned_slots
owned_slots-lists_party party [] i = refl
owned_slots-lists_party party (row ∷ rows) zero = refl
owned_slots-lists_party party (row ∷ rows) (suc i) = owned_slots-lists_party party rows i

length-owner_rows : (i n : ℕ) → length (owner_rows i n) ≡ n
unfolding owner_rows
length-owner_rows i zero = refl
length-owner_rows i (suc n) = ap suc (length-owner_rows (suc i) n)

owner_rows_single :
    (party i n j : ℕ) → j < n → lists_party party (get_or (owner_rows i n) j []) ≡ (i + j == party)
unfolding owner_rows lists_party
owner_rows_single party i zero j h = absurd (omega arith)
owner_rows_single party i (suc n) zero h = ground arith
owner_rows_single party i (suc n) (suc j) h =
    owner_rows_single party (suc i) n j (omega arith) ∙ ap (λ x. x == party) (omega arith)

-- What the constructor builds from a usable schedule.
abbrev made : ℕ → Bool → Schedule → Bool → Scheduler
made party has_clock sched disabled = record {
  party = party;
  sched = sched;
  disabled = disabled || not has_clock;
  owns = owned_slots party sched.slot_owners;
  waits = 0;
  ns_waited = 0;
  in_slot_sends = 0;
  out_of_slot_sends = 0;
  boundary_spans = 0;
  slot_hist = replicate (length sched.slot_owners) 0;
}

make-made :
    (party : ℕ) (has_clock : Bool) (sched : Schedule) (disabled : Bool)
    → is_ok sched ≡ true
    → make party has_clock sched disabled ≡ made party has_clock sched disabled
unfolding make
make-made party has_clock sched disabled ok = rw ok

is_ok_parts :
    (sched : Schedule) → is_ok sched ≡ true → (0 < sched.slot_ns) × (0 < length sched.slot_owners)
unfolding is_ok
is_ok_parts sched ok = grind arith

owned_flag :
    (party n j : ℕ)
    → (ltb j (length (owned_slots party (owner_rows 0 n)))
        && get_or (owned_slots party (owner_rows 0 n)) j false)
      ≡ (ltb j n && (j == party))
owned_flag party n j =
    rw (length-owned_slots, length-owner_rows)
      (elim (dec_lt j n) [
        | yes p ↦ rw (lt→ltb j n p) (
            owned_slots-lists_party party (owner_rows 0 n) j
            ∙ owner_rows_single party 0 n j p
            ∙ ap (λ x. x == party) (omega arith))
        | no p ↦ rw (le→ltb j n (omega arith)) refl
      ])

-- The default schedule gives slot `j` to party `j` alone: with it the constructor's flags say that
-- a party owns a slot exactly when the slot has its number and is below the number of parties.
pub round_robin_owner :
    (party n slot j : ℕ) (has_clock disabled : Bool)
    → 0 < slot
    → owns_slot (make party has_clock (round_robin n slot) disabled) j ≡ (ltb j n && (j == party))
unfolding round_robin owns_slot is_ok
round_robin_owner party zero slot j has_clock disabled h =
    unfold make in ground (arith, lt→ltb 0 slot h)
round_robin_owner party (suc n) slot j has_clock disabled h =
    rw
      (make-made party has_clock (round_robin (suc n) slot) disabled
        (ground (arith, lt→ltb 0 slot)))
      (owned_flag party (suc n) j)

-- Without wrap, what the constructor builds from a usable schedule is well timed and balanced, and
-- it is disabled exactly when it was asked to be or there is no clock.
pub make-WellTimed :
    (party : ℕ) (has_clock : Bool) (sched : Schedule) (disabled : Bool)
    → is_ok sched ≡ true
    → length sched.slot_owners < 2 ^ 32
    → 2 * (sched.slot_ns * length sched.slot_owners) < 2 ^ 64
    → WellTimed (make party has_clock sched disabled)
      × IsBalanced (make party has_clock sched disabled)
      × (((make party has_clock sched disabled).disabled ≡ false)
          ↔ ((disabled ≡ false) × (has_clock ≡ true)))
make-WellTimed party has_clock sched disabled ok few short =
    rw (make-made party has_clock sched disabled ok) (
      record {
        some_slot = (is_ok_parts sched ok).1;
        some_time = (is_ok_parts sched ok).0;
        flags = length-owned_slots party sched.slot_owners;
        few_slots = few;
        no_wrap = short;
      },
      record {
        cells = length-replicate (length sched.slot_owners) 0;
        total = sum-replicate (length sched.slot_owners);
        spans = omega arith;
      },
      ground arith,
    )
