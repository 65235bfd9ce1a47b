-- ===== src/Sharing/Total.antt =====
-- The sums of the parties' places in what the trusted party keeps, under its operators.
use qysnc_submission.Common.{suc, ◌≡◌, refl, sym, ◌∙◌, ap, ap₂, List, [], ◌∷◌, map, length, arith}
use qysnc_submission.Ring.{CommRing, ◌⊕◌, ◌⊗◌, ◌⊖◌}
use qysnc_submission.Ring.Laws.{total, add_interchange, add-mul, mul-zero, mul-neg-one}
use qysnc_submission.Sharing.{TpShare, combine, combine_rest, map_rest, tp_plus, tp_times, tp_minus}

module _ {ℓ} {R : Type ℓ} ⦃r : CommRing R⦄ where
  total-combine :
      (xs ys : List R)
      → length xs ≡ length ys
      → total (combine (λ a b. a ⊕ b) xs ys) ≡ total xs ⊕ total ys
  unfolding combine
  total-combine [] [] e = sym (r.zero-add r.zero)
  total-combine [] (y ∷ ys) e = absurd (omega arith)
  total-combine (x ∷ xs) [] e = absurd (omega arith)
  total-combine (x ∷ xs) (y ∷ ys) e =
      ap (λ z. x ⊕ y ⊕ z) (total-combine xs ys (omega arith))
      ∙ add_interchange x y (total xs) (total ys)

  length-combine :
      (xs ys : List R) → length xs ≡ length ys → length (combine (λ a b. a ⊕ b) xs ys) ≡ length xs
  unfolding combine
  length-combine [] ys e = refl
  length-combine (x ∷ xs) [] e = refl
  length-combine (x ∷ xs) (y ∷ ys) e = ap suc (length-combine xs ys (omega arith))

  total-map : (c : R) (xs : List R) → total (map (λ a. a ⊗ c) xs) ≡ total xs ⊗ c
  total-map c [] = sym (r.mul_comm r.zero c ∙ mul-zero c)
  total-map c (x ∷ xs) = ap (λ z. x ⊗ c ⊕ z) (total-map c xs) ∙ sym (add-mul x (total xs) c)

  length-map : (c : R) (xs : List R) → length (map (λ a. a ⊗ c) xs) ≡ length xs
  length-map c [] = refl
  length-map c (x ∷ xs) = ap suc (length-map c xs)

  -- What is kept of a sum, a multiple and a difference.
  pub tp_plus-total :
      (x y : TpShare R) (own own' : R) (xs ys : List R)
      → x.values ≡ own ∷ xs
      → y.values ≡ own' ∷ ys
      → length xs ≡ length ys
      → (zs : List R) × ((tp_plus x y).values ≡ own ∷ zs)
        × (length zs ≡ length xs)
        × (total zs ≡ total xs ⊕ total ys)
  unfolding tp_plus combine_rest
  tp_plus-total x y own own' xs ys e e' same = (
    combine (λ a b. a ⊕ b) xs ys,
    ap₂ (combine_rest (λ a b. a ⊕ b)) e e',
    length-combine xs ys same,
    total-combine xs ys same,
  )

  pub tp_times-total :
      (x : TpShare R) (c own : R) (xs : List R)
      → x.values ≡ own ∷ xs
      → (zs : List R) × ((tp_times x c).values ≡ own ∷ zs)
        × (length zs ≡ length xs)
        × (total zs ≡ total xs ⊗ c)
  unfolding tp_times map_rest
  tp_times-total x c own xs e =
      (map (λ a. a ⊗ c) xs, ap (map_rest (λ a. a ⊗ c)) e, length-map c xs, total-map c xs)

  pub tp_minus-total :
      (x y : TpShare R) (own own' : R) (xs ys : List R)
      → x.values ≡ own ∷ xs
      → y.values ≡ own' ∷ ys
      → length xs ≡ length ys
      → (zs : List R) × ((tp_minus x y).values ≡ own ∷ zs)
        × (length zs ≡ length xs)
        × (total zs ≡ total xs ⊖ total ys)
  unfolding tp_minus
  tp_minus-total x y own own' xs ys e e' same =
      let (us, eu, su, tu) = tp_times-total y (r.neg r.one) own' ys e' in
      let (zs, ez, sz, tz) =
        tp_plus-total x (tp_times y (r.neg r.one)) own own' xs us e eu (same ∙ sym su) in
      (zs, ez, sz, tz ∙ ap (λ z. total xs ⊕ z) (tu ∙ mul-neg-one (total ys)))
