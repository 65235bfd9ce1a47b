-- ===== src/Sharing/Mac.antt =====
-- The MAC of a sharing: the parties' tags add up to the key times the value, and the linear
-- operations keep it so.
use qysnc_submission.Common.{
  ℕ, suc, ◌≡◌, refl, sym, ◌∙◌, ap, ap₂, inl, inr, List, [], ◌∷◌, map, arith, length, ◌+◌, ◌≤◌, ◌<◌,
  ◌==◌, Bool-cases, if◌then◌else◌, ne→==,
}
use qysnc_submission.Ring.{CommRing, ◌⊕◌, ◌⊗◌, ◌⊖◌}
use qysnc_submission.Ring.Laws.{mul-zero, add-mul, mul-neg-one, add_interchange, total}
use qysnc_submission.Sharing.{AuthAddShare, plus, times, minus, add_const, add_with_adder}

module _ {ℓ} {R : Type ℓ} ⦃r : CommRing R⦄ where
  -- What the parties' shares stand for together.
  abbrev pub value_of : List (AuthAddShare R) → R
  value_of xs = total (map (λ x. x.value) xs)

  abbrev pub tag_of : List (AuthAddShare R) → R
  tag_of xs = total (map (λ x. x.tag) xs)

  abbrev pub key_of : List (AuthAddShare R) → R
  key_of xs = total (map (λ x. x.key_sh) xs)

  abbrev pub IsAuthentic : List (AuthAddShare R) → Type ℓ
  IsAuthentic xs = tag_of xs ≡ key_of xs ⊗ value_of xs

  -- Each party works on its own shares.
  abbrev pub plus_all : List (AuthAddShare R) → List (AuthAddShare R) → List (AuthAddShare R)
  plus_all (x ∷ xs) (y ∷ ys) = plus x y ∷ plus_all xs ys
  plus_all _ _ = []

  abbrev pub minus_all : List (AuthAddShare R) → List (AuthAddShare R) → List (AuthAddShare R)
  minus_all (x ∷ xs) (y ∷ ys) = minus x y ∷ minus_all xs ys
  minus_all _ _ = []

  abbrev pub times_all : List (AuthAddShare R) → R → List (AuthAddShare R)
  times_all xs c = map (λ x. times x c) xs

  -- The parties from `pid` on.
  abbrev pub add_all : ℕ → List (AuthAddShare R) → R → ℕ → List (AuthAddShare R)
  add_all pid [] c adder = []
  add_all pid (x ∷ xs) c adder = add_with_adder x c pid adder ∷ add_all (suc pid) xs c adder

  -- The same parties hold the two sharings.
  abbrev pub SameParties : List (AuthAddShare R) → List (AuthAddShare R) → Type 0
  SameParties xs ys = length xs ≡ length ys

  value-plus_all :
      (xs ys : List (AuthAddShare R))
      → length xs ≡ length ys
      → value_of (plus_all xs ys) ≡ value_of xs ⊕ value_of ys
  unfolding plus
  value-plus_all [] [] e = sym (r.zero-add r.zero)
  value-plus_all [] (y ∷ ys) e = absurd (omega arith)
  value-plus_all (x ∷ xs) [] e = absurd (omega arith)
  value-plus_all (x ∷ xs) (y ∷ ys) e =
      ap (λ z. (x.value ⊕ y.value) ⊕ z) (value-plus_all xs ys (omega arith))
      ∙ add_interchange x.value y.value (value_of xs) (value_of ys)

  tag-plus_all :
      (xs ys : List (AuthAddShare R))
      → length xs ≡ length ys
      → tag_of (plus_all xs ys) ≡ tag_of xs ⊕ tag_of ys
  unfolding plus
  tag-plus_all [] [] e = sym (r.zero-add r.zero)
  tag-plus_all [] (y ∷ ys) e = absurd (omega arith)
  tag-plus_all (x ∷ xs) [] e = absurd (omega arith)
  tag-plus_all (x ∷ xs) (y ∷ ys) e =
      ap (λ z. (x.tag ⊕ y.tag) ⊕ z) (tag-plus_all xs ys (omega arith))
      ∙ add_interchange x.tag y.tag (tag_of xs) (tag_of ys)

  pub key-plus_all :
      (xs ys : List (AuthAddShare R)) → length xs ≡ length ys → key_of (plus_all xs ys) ≡ key_of ys
  unfolding plus
  key-plus_all [] [] e = refl
  key-plus_all [] (y ∷ ys) e = absurd (omega arith)
  key-plus_all (x ∷ xs) [] e = absurd (omega arith)
  key-plus_all (x ∷ xs) (y ∷ ys) e = ap (λ z. y.key_sh ⊕ z) (key-plus_all xs ys (omega arith))

  total_scale :
      (f : AuthAddShare R → R) (c : R) (xs : List (AuthAddShare R))
      → total (map (λ x. f x ⊗ c) xs) ≡ total (map f xs) ⊗ c
  total_scale f c [] = sym (r.mul_comm r.zero c ∙ mul-zero c)
  total_scale f c (x ∷ xs) =
      ap (λ z. f x ⊗ c ⊕ z) (total_scale f c xs) ∙ sym (add-mul (f x) (total (map f xs)) c)

  -- Adding two sharings under one key adds the values and keeps the MAC.
  pub plus_all-IsAuthentic :
      (xs ys : List (AuthAddShare R))
      → length xs ≡ length ys
      → key_of xs ≡ key_of ys
      → IsAuthentic xs
      → IsAuthentic ys
      → IsAuthentic (plus_all xs ys) × (value_of (plus_all xs ys) ≡ value_of xs ⊕ value_of ys)
  plus_all-IsAuthentic xs ys e k hx hy = (
    tag-plus_all xs ys e
        ∙ ap₂ ◌⊕◌ (hx ∙ ap (λ z. z ⊗ value_of xs) k) hy
        ∙ sym (r.mul-add (key_of ys) (value_of xs) (value_of ys))
        ∙ sym (ap₂ ◌⊗◌ (key-plus_all xs ys e) (value-plus_all xs ys e)),
    value-plus_all xs ys e,
  )

  pub key-times_all : (xs : List (AuthAddShare R)) (c : R) → key_of (times_all xs c) ≡ key_of xs
  unfolding times
  key-times_all [] c = refl
  key-times_all (x ∷ xs) c = ap (λ z. x.key_sh ⊕ z) (key-times_all xs c)

  value-times_all :
      (xs : List (AuthAddShare R)) (c : R) → value_of (times_all xs c) ≡ value_of xs ⊗ c
  unfolding times
  value-times_all [] c = total_scale (λ x. x.value) c []
  value-times_all (x ∷ xs) c =
      ap (λ z. x.value ⊗ c ⊕ z) (value-times_all xs c) ∙ sym (add-mul x.value (value_of xs) c)

  tag-times_all : (xs : List (AuthAddShare R)) (c : R) → tag_of (times_all xs c) ≡ tag_of xs ⊗ c
  unfolding times
  tag-times_all [] c = total_scale (λ x. x.tag) c []
  tag-times_all (x ∷ xs) c =
      ap (λ z. x.tag ⊗ c ⊕ z) (tag-times_all xs c) ∙ sym (add-mul x.tag (tag_of xs) c)

  -- Multiplying a sharing by a constant multiplies the value and keeps the MAC.
  pub times_all-IsAuthentic :
      (xs : List (AuthAddShare R)) (c : R)
      → IsAuthentic xs
      → IsAuthentic (times_all xs c) × (value_of (times_all xs c) ≡ value_of xs ⊗ c)
  times_all-IsAuthentic xs c h = (
    tag-times_all xs c
        ∙ ap (λ z. z ⊗ c) h
        ∙ r.mul_assoc (key_of xs) (value_of xs) c
        ∙ sym (ap₂ ◌⊗◌ (key-times_all xs c) (value-times_all xs c)),
    value-times_all xs c,
  )

  pub minus-plus_all :
      (xs ys : List (AuthAddShare R)) → minus_all xs ys ≡ plus_all xs (times_all ys (r.neg r.one))
  unfolding minus
  minus-plus_all [] ys = refl
  minus-plus_all (x ∷ xs) [] = refl
  minus-plus_all (x ∷ xs) (y ∷ ys) = ap (◌∷◌ (minus x y)) (minus-plus_all xs ys)

  pub length-times_all : (xs : List (AuthAddShare R)) (c : R) → length (times_all xs c) ≡ length xs
  length-times_all [] c = refl
  length-times_all (x ∷ xs) c = ap suc (length-times_all xs c)

  -- Subtracting two sharings under one key subtracts the values and keeps the MAC.
  minus_all-IsAuthentic :
      (xs ys : List (AuthAddShare R))
      → length xs ≡ length ys
      → key_of xs ≡ key_of ys
      → IsAuthentic xs
      → IsAuthentic ys
      → IsAuthentic (minus_all xs ys) × (value_of (minus_all xs ys) ≡ value_of xs ⊖ value_of ys)
  minus_all-IsAuthentic xs ys e k hx hy =
      let negated = times_all-IsAuthentic ys (r.neg r.one) hy in
      let sum =
        plus_all-IsAuthentic xs (times_all ys (r.neg r.one))
          (e ∙ sym (length-times_all ys (r.neg r.one))) (k ∙ sym (key-times_all ys (r.neg r.one)))
          hx negated.0 in
      rw (minus-plus_all xs ys)
        (sum.0, sum.1 ∙ ap (λ z. value_of xs ⊕ z) (negated.1 ∙ mul-neg-one (value_of ys)))

  add_with_adder-tag :
      (x : AuthAddShare R) (c : R) (pid adder : ℕ)
      → (add_with_adder x c pid adder).tag ≡ x.tag ⊕ x.key_sh ⊗ c
  unfolding add_with_adder
  add_with_adder-tag x c pid adder = ground arith

  add_with_adder-key :
      (x : AuthAddShare R) (c : R) (pid adder : ℕ)
      → (add_with_adder x c pid adder).key_sh ≡ x.key_sh
  unfolding add_with_adder
  add_with_adder-key x c pid adder = ground arith

  add_with_adder-value :
      (x : AuthAddShare R) (c : R) (pid adder : ℕ)
      → (add_with_adder x c pid adder).value ≡ (if pid == adder then x.value ⊕ c else x.value)
  unfolding add_with_adder
  add_with_adder-value x c pid adder = ground arith

  pub key-add_all :
      (pid : ℕ) (xs : List (AuthAddShare R)) (c : R) (adder : ℕ)
      → key_of (add_all pid xs c adder) ≡ key_of xs
  key-add_all pid [] c adder = refl
  key-add_all pid (x ∷ xs) c adder =
      ap₂ ◌⊕◌ (add_with_adder-key x c pid adder) (key-add_all (suc pid) xs c adder)

  tag-add_all :
      (pid : ℕ) (xs : List (AuthAddShare R)) (c : R) (adder : ℕ)
      → tag_of (add_all pid xs c adder) ≡ tag_of xs ⊕ key_of xs ⊗ c
  tag-add_all pid [] c adder =
      sym (ap (λ z. r.zero ⊕ z) (r.mul_comm r.zero c ∙ mul-zero c) ∙ r.zero-add r.zero)
  tag-add_all pid (x ∷ xs) c adder =
      ap₂ ◌⊕◌ (add_with_adder-tag x c pid adder) (tag-add_all (suc pid) xs c adder)
      ∙ add_interchange x.tag (x.key_sh ⊗ c) (tag_of xs) (key_of xs ⊗ c)
      ∙ ap (λ z. (x.tag ⊕ tag_of xs) ⊕ z) (sym (add-mul x.key_sh (key_of xs) c))

  value_past :
      (pid : ℕ) (xs : List (AuthAddShare R)) (c : R) (adder : ℕ)
      → adder < pid
      → value_of (add_all pid xs c adder) ≡ value_of xs
  value_past pid [] c adder h = refl
  value_past pid (x ∷ xs) c adder h =
      ap₂ ◌⊕◌ (add_with_adder-value x c pid adder ∙ rw (ne→== pid adder (omega arith)) refl)
        (value_past (suc pid) xs c adder (omega arith))

  value-add_all :
      (pid : ℕ) (xs : List (AuthAddShare R)) (c : R) (adder : ℕ)
      → pid ≤ adder
      → adder < pid + length xs
      → value_of (add_all pid xs c adder) ≡ value_of xs ⊕ c
  value-add_all pid [] c adder lo hi = absurd (omega arith)
  value-add_all pid (x ∷ xs) c adder lo hi = elim (Bool-cases (pid == adder)) [
    | inl e ↦
        ap₂ ◌⊕◌ (add_with_adder-value x c pid adder ∙ rw e refl)
          (value_past (suc pid) xs c adder (ground arith))
        ∙ r.add_assoc x.value c (value_of xs)
        ∙ ap (λ z. x.value ⊕ z) (r.add_comm c (value_of xs))
        ∙ sym (r.add_assoc x.value (value_of xs) c)
    | inr e ↦
        ap₂ ◌⊕◌ (add_with_adder-value x c pid adder ∙ rw e refl)
          (value-add_all (suc pid) xs c adder (ground arith) (omega arith))
        ∙ sym (r.add_assoc x.value (value_of xs) c)
  ]

  pub add_const-add_with_adder :
      (x : AuthAddShare R) (c : R) (pid : ℕ) → add_const x c pid ≡ add_with_adder x c pid 1
  unfolding add_const add_with_adder
  add_const-add_with_adder x c pid = refl

  -- When every party calls `addWithAdder` and the adder is one of them, the constant is added to
  -- the value once, and the MAC is kept; `add` is `addWithAdder` with party 1.
  pub add_all-IsAuthentic :
      (xs : List (AuthAddShare R)) (c : R) (adder : ℕ)
      → 1 ≤ adder
      → adder ≤ length xs
      → IsAuthentic xs
      → IsAuthentic (add_all 1 xs c adder)
        × (value_of (add_all 1 xs c adder) ≡ value_of xs ⊕ c)
        × ((x : AuthAddShare R) (pid : ℕ) → add_const x c pid ≡ add_with_adder x c pid 1)
  unfolding add_const add_with_adder
  add_all-IsAuthentic xs c adder lo hi h = (
    tag-add_all 1 xs c adder
        ∙ ap (λ z. z ⊕ key_of xs ⊗ c) h
        ∙ sym (r.mul-add (key_of xs) (value_of xs) c)
        ∙ sym (ap₂ ◌⊗◌ (key-add_all 1 xs c adder) (value-add_all 1 xs c adder lo (omega arith))),
    value-add_all 1 xs c adder lo (omega arith),
    λ x pid. refl,
  )
