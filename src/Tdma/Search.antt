-- ===== src/Tdma/Search.antt =====
-- The search of `wait_for_slot` for the next owned slot, with no wrap.
use native.Mathlib.Nat.{mod-add-mod, mod-lt, mod-eq_of_lt, eq-or-lt_of_le, add-mod_right}
use native.Mathlib.Decide.{dec_lt}
use qysnc_submission.Common.{
  ℕ, zero, suc, ◌+◌, ◌-◌, ◌*◌, ◌/◌, ◌%◌, ◌≤◌, ◌<◌, ◌≡◌, refl, sym, ◌∙◌, ap, subst, ◌⊎◌, inl, inr,
  Bool, true, false, arith, length, get_or, Bool-cases, lt→ltb, le→ltb,
}
use qysnc_submission.Tdma.{Scheduler, owns_slot, cycle_slots, next_owned}
use qysnc_submission.Tdma.Slots.{WellTimed, slot_at, fits, index-u32}

-- The flag that the search reads in its round `j`.
abbrev pub owned_at : Scheduler → ℕ → ℕ → Bool
owned_at s cur j = get_or s.owns ((cur + j) % cycle_slots s) false

-- What the search from round `k` on finds: the first owned slot ahead, or that there is none.
abbrev pub Search : Scheduler → ℕ → ℕ → ℕ → ℕ → ℕ → Type 0
Search s cur pos k left d =
    ((d ≡ 0) × ((j : ℕ) → k ≤ j → j < k + left → owned_at s cur j ≡ false))
    ⊎ ((j : ℕ) × (k ≤ j)
        × (j < k + left)
        × (owned_at s cur j ≡ true)
        × (d + pos ≡ (cur + j) * s.sched.slot_ns)
        × ((i : ℕ) → k ≤ i → i < j → owned_at s cur i ≡ false))

Search-cons :
    (s : Scheduler) (cur pos k left d : ℕ)
    → owned_at s cur k ≡ false
    → Search s cur pos (k + 1) left d
    → Search s cur pos k (suc left) d
Search-cons s cur pos k left d e (inl (z, all)) = inl (
  z,
  λ j p q. elim (eq-or-lt_of_le p) [
    | inl k≡j ↦ subst (λ x. owned_at s cur x ≡ false) k≡j e
    | inr k<j ↦ all j (omega arith) (omega arith)
  ],
)
Search-cons s cur pos k left d e (inr (j, lo, hi, o, dist, before)) = inr (
  j,
  omega arith,
  omega arith,
  o,
  dist,
  λ i p q. elim (eq-or-lt_of_le p) [
    | inl k≡i ↦ subst (λ x. owned_at s cur x ≡ false) k≡i e
    | inr k<i ↦ before i (omega arith) q
  ],
)

module _ (s : Scheduler) (w : WellTimed s) where
  next_owned-hit :
      (cur pos k left : ℕ)
      → cur + k ≤ 2 * cycle_slots s
      → pos < (cur + k) * s.sched.slot_ns
      → owned_at s cur k ≡ true
      → next_owned s cur pos k (suc left) ≡ (cur + k) * s.sched.slot_ns - pos
  unfolding next_owned
  next_owned-hit cur pos k left hk hp e =
      rw (index-u32 s w (cur + k), e) (omega (arith, fits s w (cur + k) hk))

  next_owned-miss :
      (cur pos k left : ℕ)
      → owned_at s cur k ≡ false
      → next_owned s cur pos k (suc left) ≡ next_owned s cur pos (k + 1) left
  unfolding next_owned
  next_owned-miss cur pos k left e = rw (index-u32 s w (cur + k), e) refl

  pub next_owned-Search :
      (cur pos k left : ℕ)
      → cur < cycle_slots s
      → pos < (cur + k) * s.sched.slot_ns
      → k + left ≤ cycle_slots s + 1
      → Search s cur pos k left (next_owned s cur pos k left)
  next_owned-Search cur pos k zero hc hp hk =
      inl (unfold next_owned in refl, λ j p q. absurd (omega arith))
  next_owned-Search cur pos k (suc left) hc hp hk = elim (Bool-cases (owned_at s cur k)) [
    | inl e ↦
        rw (next_owned-hit cur pos k left (omega arith) hp e)
          (inr (k, omega arith, omega arith, e, omega arith, λ i p q. absurd (omega arith)))
    | inr e ↦ rw (next_owned-miss cur pos k left e) (
        Search-cons s cur pos k left _ e
          (next_owned-Search cur pos (k + 1) left hc (grind arith) (omega arith)))
  ]

-- Every slot is ahead of every slot by one cycle at most.
pub cover : (n cur j : ℕ) → cur < n → j < n → (k : ℕ) × (1 ≤ k) × (k < 1 + n) × ((cur + k) % n ≡ j)
cover n cur j hc hj = elim (dec_lt cur j) [
  | yes p ↦ (j - cur, omega arith, omega arith, ap (λ x. x % n) (omega arith) ∙ mod-eq_of_lt hj)
  | no p ↦ (
    j + n - cur,
    omega arith,
    omega arith,
    ap (λ x. x % n) (omega arith) ∙ add-mod_right j n ∙ mod-eq_of_lt hj,
  )
]

module _ (s : Scheduler) (w : WellTimed s) where
  pub owns_slot-flag :
      (c : ℕ) → owns_slot s (c % cycle_slots s) ≡ get_or s.owns (c % cycle_slots s) false
  unfolding owns_slot
  owns_slot-flag c =
      rw (lt→ltb (c % cycle_slots s) (length s.owns) (omega (arith, w.flags, mod-lt c w.some_slot)))
        refl

  pub owns_slot-above : (j : ℕ) → cycle_slots s ≤ j → owns_slot s j ≡ false
  unfolding owns_slot
  owns_slot-above j h = rw (le→ltb j (length s.owns) (omega (arith, w.flags))) refl

  -- The slot `k` starts after the one of `t`.
  pub owns_slot-ahead :
      (t u k : ℕ)
      → u / s.sched.slot_ns ≡ t / s.sched.slot_ns + k
      → owns_slot s (slot_at s u) ≡ owned_at s (slot_at s t) k
  owns_slot-ahead t u k e =
      owns_slot-flag (u / s.sched.slot_ns)
      ∙ ap (λ x. get_or s.owns x false)
          (ap (λ x. x % cycle_slots s) e
            ∙ sym (mod-add-mod (t / s.sched.slot_ns) (cycle_slots s) k))
