-- ===== src/Common/Arith.antt =====
-- Laws of division that the components share.
use Prim.Native.Nat.{ℕ, ◌+◌, ◌-◌, ◌*◌, ◌/◌, ◌%◌, ◌^◌, ◌<◌}
use mathlib.Core.Path.{◌≡◌, ◌∙◌, ap}
use native.Mathlib.Nat.{
  mod-lt, mod-eq_of_lt, div-eq_of_lt-le, mul-le-mul_right, add-mul-mod_self_right, div-add-mod',
  pow-suc,
}
use native.Mathlib.Omega.{arith}

module _ (slot n : ℕ) (hs : 0 < slot) (hn : 0 < n) where
  -- `t` split by slots and by cycles.
  split : (t : ℕ) → t ≡ t / slot % n * slot + t % slot + t / slot / n * (slot * n)
  split t = omega (arith, div-add-mod' t slot, ap (λ (c : ℕ). c * slot) (div-add-mod' (t / slot) n))

  in_cycle : (t : ℕ) → t / slot % n * slot + t % slot < slot * n
  in_cycle t = grind (
    arith,
    mod-lt (t / slot) hn,
    mod-lt t hs,
    mul-le-mul_right {m = t / slot % n + 1} {n = n} slot,
  )

  pub mod_cycle : (t : ℕ) → t % (slot * n) ≡ t / slot % n * slot + t % slot
  mod_cycle t =
      ap (λ x. x % (slot * n)) (split t)
      ∙ add-mul-mod_self_right (t / slot % n * slot + t % slot) (t / slot / n) (slot * n)
      ∙ mod-eq_of_lt (in_cycle t)

  -- The slot index that the code computes, and the position in the slot.
  pub index_of_mod : (t : ℕ) → t % (slot * n) / slot ≡ t / slot % n
  index_of_mod t =
      ap (λ x. x / slot) (mod_cycle t)
      ∙ div-eq_of_lt-le {k = t / slot % n} slot (omega arith) (omega (arith, mod-lt t hs))

  pub offset_of_mod : (t : ℕ) → t % (slot * n) - t / slot % n * slot ≡ t % slot
  offset_of_mod t = omega (arith, mod_cycle t)

-- A time that is `c` slots and less than one slot more.
pub div_of_inside : (slot c r : ℕ) → r < slot → (c * slot + r) / slot ≡ c
div_of_inside slot c r h = div-eq_of_lt-le {k = c} slot (omega arith) (grind arith)

pub pow-add-one : (j : ℕ) → 2 ^ (j + 1) ≡ 2 * 2 ^ j
pow-add-one j = ap (λ k. 2 ^ k) (omega arith) ∙ pow-suc 2 j ∙ omega arith
