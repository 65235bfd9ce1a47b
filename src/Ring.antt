-- ===== src/Ring.antt =====
-- The template parameter `R` of the share and circuit classes: a commutative ring. `BoolRing` of
-- code/src/utils/types.h is one (Bits/Ring); `Field` is NTL's `ZZ_p`, a library type, whose ring laws
-- are the laws of this interface.
pub mod Laws
pub mod Solve
use mathlib.Core.Path.{◌≡◌}

pub record CommRing {ℓ} (R : Type ℓ) : Type ℓ where
  pub zero : R
  pub one : R
  pub add : R → R → R
  pub neg : R → R
  pub mul : R → R → R
  pub add_assoc : (a b c : R) → add (add a b) c ≡ add a (add b c)
  pub add_comm : (a b : R) → add a b ≡ add b a
  pub zero-add : (a : R) → add zero a ≡ a
  pub neg-add : (a : R) → add (neg a) a ≡ zero
  pub mul_assoc : (a b c : R) → mul (mul a b) c ≡ mul a (mul b c)
  pub mul_comm : (a b : R) → mul a b ≡ mul b a
  pub one-mul : (a : R) → mul one a ≡ a
  pub mul-add : (a b c : R) → mul a (add b c) ≡ add (mul a b) (mul a c)

infixl 65 ◌⊕◌ ◌⊖◌
infixl 70 ◌⊗◌
abbrev pub ◌⊕◌ {ℓ} : {R : Type ℓ} ⦃r : CommRing R⦄ → R → R → R
◌⊕◌ ⦃r⦄ = r.add

abbrev pub ◌⊗◌ {ℓ} : {R : Type ℓ} ⦃r : CommRing R⦄ → R → R → R
◌⊗◌ ⦃r⦄ = r.mul

abbrev pub ◌⊖◌ {ℓ} : {R : Type ℓ} ⦃r : CommRing R⦄ → R → R → R
◌⊖◌ ⦃r⦄ a b = r.add a (r.neg b)
