-- ===== src/Ring/Laws.antt =====
-- Consequences of the ring laws that the proofs about shares use.
use mathlib.Core.Path.{◌≡◌, sym, ap, ap₂, ◌∙◌}
use mathlib.Core.List.{List, [], ◌∷◌, ◌++◌}
use qysnc_submission.Ring.{CommRing, ◌⊕◌, ◌⊗◌, ◌⊖◌}

module _ {ℓ} {R : Type ℓ} ⦃r : CommRing R⦄ where
  pub add-zero : (a : R) → a ⊕ r.zero ≡ a
  add-zero a = r.add_comm a r.zero ∙ r.zero-add a

  pub add-neg : (a : R) → a ⊕ r.neg a ≡ r.zero
  add-neg a = r.add_comm a (r.neg a) ∙ r.neg-add a

  pub mul-one : (a : R) → a ⊗ r.one ≡ a
  mul-one a = r.mul_comm a r.one ∙ r.one-mul a

  pub add-mul : (a b c : R) → (a ⊕ b) ⊗ c ≡ a ⊗ c ⊕ b ⊗ c
  add-mul a b c = r.mul_comm (a ⊕ b) c ∙ r.mul-add c a b ∙ ap₂ ◌⊕◌ (r.mul_comm c a) (r.mul_comm c b)

  pub add_left_cancel : (a b c : R) → a ⊕ b ≡ a ⊕ c → b ≡ c
  add_left_cancel a b c e = sym (undo b) ∙ ap (λ x. r.neg a ⊕ x) e ∙ undo c
    where
      undo : (x : R) → r.neg a ⊕ (a ⊕ x) ≡ x
      undo x = sym (r.add_assoc (r.neg a) a x) ∙ ap (λ y. y ⊕ x) (r.neg-add a) ∙ r.zero-add x

  pub mul-zero : (a : R) → a ⊗ r.zero ≡ r.zero
  mul-zero a = add_left_cancel (a ⊗ r.zero) (a ⊗ r.zero) r.zero (
      sym (r.mul-add a r.zero r.zero)
      ∙ ap (λ x. a ⊗ x) (r.zero-add r.zero)
      ∙ sym (add-zero (a ⊗ r.zero)))

  pub mul-neg : (a b : R) → a ⊗ r.neg b ≡ r.neg (a ⊗ b)
  mul-neg a b = add_left_cancel (a ⊗ b) (a ⊗ r.neg b) (r.neg (a ⊗ b)) (
      sym (r.mul-add a b (r.neg b))
      ∙ ap (λ x. a ⊗ x) (add-neg b)
      ∙ mul-zero a
      ∙ sym (add-neg (a ⊗ b)))

  -- Multiplying by `R(-1)` negates.
  pub mul-neg-one : (a : R) → a ⊗ r.neg r.one ≡ r.neg a
  mul-neg-one a = mul-neg a r.one ∙ ap r.neg (mul-one a)

  pub neg-zero : r.neg r.zero ≡ r.zero
  neg-zero = sym (add-zero (r.neg r.zero)) ∙ r.neg-add r.zero

  pub add_interchange : (a b c d : R) → (a ⊕ b) ⊕ (c ⊕ d) ≡ (a ⊕ c) ⊕ (b ⊕ d)
  add_interchange a b c d =
      r.add_assoc a b (c ⊕ d)
      ∙ ap (λ x. a ⊕ x)
          (sym (r.add_assoc b c d) ∙ ap (λ x. x ⊕ d) (r.add_comm b c) ∙ r.add_assoc c b d)
      ∙ sym (r.add_assoc a c (b ⊕ d))

  pub add-sub_cancel : (a b : R) → a ⊕ (b ⊖ a) ≡ b
  add-sub_cancel a b =
      ap (λ x. a ⊕ x) (r.add_comm b (r.neg a))
      ∙ sym (r.add_assoc a (r.neg a) b)
      ∙ ap (λ x. x ⊕ b) (add-neg a)
      ∙ r.zero-add b

  -- The sum of a list of ring elements.
  abbrev pub total : List R → R
  total [] = r.zero
  total (x ∷ xs) = x ⊕ total xs

  pub total-append : (xs ys : List R) → total (xs ++ ys) ≡ total xs ⊕ total ys
  total-append [] ys = sym (r.zero-add (total ys))
  total-append (x ∷ xs) ys =
      ap (λ z. x ⊕ z) (total-append xs ys) ∙ sym (r.add_assoc x (total xs) (total ys))
