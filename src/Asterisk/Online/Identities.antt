-- ===== src/Asterisk/Online/Identities.antt =====
-- The ring identities behind the shares of a multiplication: with masked inputs `x`, `y`, ... and
-- masks `u`, `v`, ..., what the parties add up to is the mask `m` plus the product of the values.
use qysnc_submission.Common.{ℕ, ◌≡◌, refl, [], ◌∷◌}
use qysnc_submission.Ring.{CommRing, ◌⊕◌, ◌⊗◌, ◌⊖◌}
use qysnc_submission.Ring.Solve.{Expr, var, sum, difference, product, eval-normal_form}

-- The products of two, three and four variables.
abbrev p2 : ℕ → ℕ → Expr
p2 i j = product (var i) (var j)

abbrev p3 : ℕ → ℕ → ℕ → Expr
p3 i j k = product (p2 i j) (var k)

abbrev p4 : ℕ → ℕ → ℕ → ℕ → Expr
p4 i j k l = product (p3 i j k) (var l)

-- A masked wire without its mask.
abbrev unmasked : ℕ → ℕ → Expr
unmasked i j = difference (var i) (var j)

module _ {ℓ} {R : Type ℓ} ⦃r : CommRing R⦄ where
  pub masked_mul : (m x y u v : R) → m ⊕ u ⊗ v ⊖ u ⊗ y ⊖ v ⊗ x ⊕ x ⊗ y ≡ m ⊕ (x ⊖ u) ⊗ (y ⊖ v)
  masked_mul m x y u v =
      eval-normal_form (m ∷ x ∷ y ∷ u ∷ v ∷ [])
        (sum (difference (difference (sum (var 0) (p2 3 4)) (p2 3 2)) (p2 4 1)) (p2 1 2))
        (sum (var 0) (product (unmasked 1 3) (unmasked 2 4))) refl

  pub masked_mul3 :
      (m x y z u v w : R)
      → m
          ⊖ u ⊗ v ⊗ w
          ⊕ (v ⊗ w ⊗ x ⊕ u ⊗ w ⊗ y ⊕ u ⊗ v ⊗ z)
          ⊖ (w ⊗ x ⊗ y ⊕ v ⊗ x ⊗ z ⊕ u ⊗ y ⊗ z)
          ⊕ x ⊗ y ⊗ z
        ≡ m ⊕ (x ⊖ u) ⊗ (y ⊖ v) ⊗ (z ⊖ w)
  masked_mul3 m x y z u v w =
      eval-normal_form (m ∷ x ∷ y ∷ z ∷ u ∷ v ∷ w ∷ [])
        (sum
          (difference
            (sum (difference (var 0) (p3 4 5 6)) (sum (sum (p3 5 6 1) (p3 4 6 2)) (p3 4 5 3)))
            (sum (sum (p3 6 1 2) (p3 5 1 3)) (p3 4 2 3)))
          (p3 1 2 3))
        (sum (var 0) (product (product (unmasked 1 4) (unmasked 2 5)) (unmasked 3 6))) refl

  -- One pair of a dot product; `n` are the mask products still to come.
  pub masked_pair :
      (m n x y u v : R) → m ⊕ (u ⊗ v ⊕ n) ⊖ (u ⊗ y ⊕ v ⊗ x) ⊕ x ⊗ y ≡ m ⊕ (x ⊖ u) ⊗ (y ⊖ v) ⊕ n
  masked_pair m n x y u v =
      eval-normal_form (m ∷ n ∷ x ∷ y ∷ u ∷ v ∷ [])
        (sum (difference (sum (var 0) (sum (p2 4 5) (var 1))) (sum (p2 4 3) (p2 5 2))) (p2 2 3))
        (sum (sum (var 0) (product (unmasked 2 4) (unmasked 3 5))) (var 1)) refl

  -- The masks are `s`, `t`, `u`, `v`.
  pub masked_mul4 :
      (m a b c d s t u v : R)
      → m
          ⊖ (v ⊗ a ⊗ b ⊗ c ⊕ u ⊗ a ⊗ b ⊗ d ⊕ t ⊗ a ⊗ c ⊗ d ⊕ s ⊗ b ⊗ c ⊗ d)
          ⊕ (u ⊗ v ⊗ a ⊗ b
              ⊕ t ⊗ v ⊗ a ⊗ c
              ⊕ t ⊗ u ⊗ a ⊗ d
              ⊕ s ⊗ v ⊗ b ⊗ c
              ⊕ s ⊗ u ⊗ b ⊗ d
              ⊕ s ⊗ t ⊗ c ⊗ d)
          ⊖ (t ⊗ u ⊗ v ⊗ a ⊕ s ⊗ u ⊗ v ⊗ b ⊕ s ⊗ t ⊗ v ⊗ c ⊕ s ⊗ t ⊗ u ⊗ d)
          ⊕ s ⊗ t ⊗ u ⊗ v
          ⊕ a ⊗ b ⊗ c ⊗ d
        ≡ m ⊕ (a ⊖ s) ⊗ (b ⊖ t) ⊗ (c ⊖ u) ⊗ (d ⊖ v)
  masked_mul4 m a b c d s t u v =
      eval-normal_form (m ∷ a ∷ b ∷ c ∷ d ∷ s ∷ t ∷ u ∷ v ∷ [])
        (sum
          (sum
            (difference
              (sum
                (difference (var 0)
                  (sum (sum (sum (p4 8 1 2 3) (p4 7 1 2 4)) (p4 6 1 3 4)) (p4 5 2 3 4)))
                (sum
                  (sum (sum (sum (sum (p4 7 8 1 2) (p4 6 8 1 3)) (p4 6 7 1 4)) (p4 5 8 2 3))
                    (p4 5 7 2 4))
                  (p4 5 6 3 4)))
              (sum (sum (sum (p4 6 7 8 1) (p4 5 7 8 2)) (p4 5 6 8 3)) (p4 5 6 7 4)))
            (p4 5 6 7 8))
          (p4 1 2 3 4))
        (sum (var 0)
          (product (product (product (unmasked 1 5) (unmasked 2 6)) (unmasked 3 7)) (unmasked 4 8)))
        refl
