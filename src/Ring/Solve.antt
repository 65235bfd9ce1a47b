-- ===== src/Ring/Solve.antt =====
-- Equations of ring expressions, decided by their normal forms: an expression is expanded to a sum
-- of signed products of variables, each sorted. Nothing here stands for code.
use qysnc_submission.Common.{
  ℕ, suc, ◌+◌, ◌*◌, ◌≡◌, refl, sym, ap, ap₂, ◌∙◌, Bool, true, false, List, [], ◌∷◌, ◌++◌, map,
  get_or, ltb, Bool-cases, inl, inr, if◌then◌else◌,
}
use qysnc_submission.Ring.{CommRing, ◌⊕◌, ◌⊗◌, ◌⊖◌}
use qysnc_submission.Ring.Laws.{
  add-zero, add-neg, mul-one, add-mul, mul-zero, mul-neg, mul-neg-one, neg-zero, add_left_cancel,
  total,
}

pub data Expr : Type 0 where
  var : ℕ → Expr
  sum : Expr → Expr → Expr
  difference : Expr → Expr → Expr
  product : Expr → Expr → Expr

-- A product of variables, sorted, and whether it is added or subtracted.
pub record Monomial : Type 0 where
  is_added : Bool
  factors : List ℕ

abbrev insert_factor : ℕ → List ℕ → List ℕ
insert_factor i [] = i ∷ []
insert_factor i (j ∷ js) = if ltb j i then j ∷ insert_factor i js else i ∷ j ∷ js

abbrev merge : List ℕ → List ℕ → List ℕ
merge [] js = js
merge (i ∷ is) js = insert_factor i (merge is js)

abbrev same : Bool → Bool → Bool
same true b = b
same false true = false
same false false = true

abbrev flip : Monomial → Monomial
flip m = record { is_added = same false m.is_added; factors = m.factors }

abbrev times_monomial : Monomial → Monomial → Monomial
times_monomial m n = record {
  is_added = same m.is_added n.is_added;
  factors = merge m.factors n.factors;
}

abbrev times_monomials : List Monomial → List Monomial → List Monomial
times_monomials [] ns = []
times_monomials (m ∷ ms) ns = map (times_monomial m) ns ++ times_monomials ms ns

abbrev expand : Expr → List Monomial
expand (var i) = record { is_added = true; factors = i ∷ [] } ∷ []
expand (sum a b) = expand a ++ expand b
expand (difference a b) = expand a ++ map flip (expand b)
expand (product a b) = times_monomials (expand a) (expand b)

-- The factors as digits, to sort the products by.
abbrev code_of : List ℕ → ℕ
code_of [] = 0
code_of (i ∷ is) = suc i + 16 * code_of is

abbrev insert_monomial : Monomial → List Monomial → List Monomial
insert_monomial m [] = m ∷ []
insert_monomial m (n ∷ ns) =
    if ltb (code_of n.factors) (code_of m.factors) then n ∷ insert_monomial m ns else m ∷ n ∷ ns

abbrev sort_monomials : List Monomial → List Monomial
sort_monomials [] = []
sort_monomials (m ∷ ms) = insert_monomial m (sort_monomials ms)

abbrev pub normal_form : Expr → List Monomial
normal_form e = sort_monomials (expand e)

module _ {ℓ} {R : Type ℓ} ⦃r : CommRing R⦄ (env : List R) where
  abbrev pub eval : Expr → R
  eval (var i) = get_or env i r.zero
  eval (sum a b) = eval a ⊕ eval b
  eval (difference a b) = eval a ⊖ eval b
  eval (product a b) = eval a ⊗ eval b

  abbrev signed : Bool → R → R
  signed true x = x
  signed false x = r.neg x

  abbrev product_of : List ℕ → R
  product_of [] = r.one
  product_of (i ∷ is) = get_or env i r.zero ⊗ product_of is

  abbrev value : Monomial → R
  value m = signed m.is_added (product_of m.factors)

  neg-neg : (a : R) → r.neg (r.neg a) ≡ a
  neg-neg a = add_left_cancel (r.neg a) (r.neg (r.neg a)) a (add-neg (r.neg a) ∙ sym (r.neg-add a))

  neg-sum : (a b : R) → r.neg (a ⊕ b) ≡ r.neg a ⊕ r.neg b
  neg-sum a b =
      sym (mul-neg-one (a ⊕ b))
      ∙ add-mul a b (r.neg r.one)
      ∙ ap₂ ◌⊕◌ (mul-neg-one a) (mul-neg-one b)

  neg-mul : (a b : R) → r.neg a ⊗ b ≡ r.neg (a ⊗ b)
  neg-mul a b = r.mul_comm (r.neg a) b ∙ mul-neg b a ∙ ap r.neg (r.mul_comm b a)

  swap_factors : (a b c : R) → a ⊗ (b ⊗ c) ≡ b ⊗ (a ⊗ c)
  swap_factors a b c =
      sym (r.mul_assoc a b c) ∙ ap (λ x. x ⊗ c) (r.mul_comm a b) ∙ r.mul_assoc b a c

  swap_terms : (a b c : R) → a ⊕ (b ⊕ c) ≡ b ⊕ (a ⊕ c)
  swap_terms a b c = sym (r.add_assoc a b c) ∙ ap (λ x. x ⊕ c) (r.add_comm a b) ∙ r.add_assoc b a c

  product_of-insert_factor :
      (i : ℕ) (js : List ℕ) → product_of (insert_factor i js) ≡ get_or env i r.zero ⊗ product_of js
  product_of-insert_factor i [] = refl
  product_of-insert_factor i (j ∷ js) = elim (Bool-cases (ltb j i)) [
    | inl e ↦ rw e (
        ap (λ x. get_or env j r.zero ⊗ x) (product_of-insert_factor i js)
        ∙ swap_factors (get_or env j r.zero) (get_or env i r.zero) (product_of js))
    | inr e ↦ rw e refl
  ]

  product_of-merge : (is js : List ℕ) → product_of (merge is js) ≡ product_of is ⊗ product_of js
  product_of-merge [] js = sym (r.one-mul (product_of js))
  product_of-merge (i ∷ is) js =
      product_of-insert_factor i (merge is js)
      ∙ ap (λ x. get_or env i r.zero ⊗ x) (product_of-merge is js)
      ∙ sym (r.mul_assoc (get_or env i r.zero) (product_of is) (product_of js))

  signed-same : (a b : Bool) (x y : R) → signed (same a b) (x ⊗ y) ≡ signed a x ⊗ signed b y
  signed-same true true x y = refl
  signed-same true false x y = sym (mul-neg x y)
  signed-same false true x y = sym (neg-mul x y)
  signed-same false false x y =
      sym (neg-neg (x ⊗ y)) ∙ ap r.neg (sym (mul-neg x y)) ∙ sym (neg-mul x (r.neg y))

  value-times : (m n : Monomial) → value (times_monomial m n) ≡ value m ⊗ value n
  value-times m n =
      ap (signed (same m.is_added n.is_added)) (product_of-merge m.factors n.factors)
      ∙ signed-same m.is_added n.is_added (product_of m.factors) (product_of n.factors)

  signed-not : (b : Bool) (x : R) → signed (same false b) x ≡ r.neg (signed b x)
  signed-not true x = refl
  signed-not false x = sym (neg-neg x)

  abbrev value_all : List Monomial → R
  value_all ms = total (map value ms)

  value_all-append : (ms ns : List Monomial) → value_all (ms ++ ns) ≡ value_all ms ⊕ value_all ns
  value_all-append [] ns = sym (r.zero-add (value_all ns))
  value_all-append (m ∷ ms) ns =
      ap (λ x. value m ⊕ x) (value_all-append ms ns)
      ∙ sym (r.add_assoc (value m) (value_all ms) (value_all ns))

  value_all-flip : (ms : List Monomial) → value_all (map flip ms) ≡ r.neg (value_all ms)
  value_all-flip [] = sym neg-zero
  value_all-flip (m ∷ ms) =
      ap₂ ◌⊕◌ (signed-not m.is_added (product_of m.factors)) (value_all-flip ms)
      ∙ sym (neg-sum (value m) (value_all ms))

  value_all-map-times :
      (m : Monomial) (ns : List Monomial)
      → value_all (map (times_monomial m) ns) ≡ value m ⊗ value_all ns
  value_all-map-times m [] = sym (mul-zero (value m))
  value_all-map-times m (n ∷ ns) =
      ap₂ ◌⊕◌ (value-times m n) (value_all-map-times m ns)
      ∙ sym (r.mul-add (value m) (value n) (value_all ns))

  value_all-times_all :
      (ms ns : List Monomial) → value_all (times_monomials ms ns) ≡ value_all ms ⊗ value_all ns
  value_all-times_all [] ns = sym (r.mul_comm r.zero (value_all ns) ∙ mul-zero (value_all ns))
  value_all-times_all (m ∷ ms) ns =
      value_all-append (map (times_monomial m) ns) (times_monomials ms ns)
      ∙ ap₂ ◌⊕◌ (value_all-map-times m ns) (value_all-times_all ms ns)
      ∙ sym (add-mul (value m) (value_all ms) (value_all ns))

  value_all-expand : (e : Expr) → value_all (expand e) ≡ eval e
  value_all-expand (var i) = add-zero (get_or env i r.zero ⊗ r.one) ∙ mul-one (get_or env i r.zero)
  value_all-expand (sum a b) =
      value_all-append (expand a) (expand b) ∙ ap₂ ◌⊕◌ (value_all-expand a) (value_all-expand b)
  value_all-expand (difference a b) =
      value_all-append (expand a) (map flip (expand b))
      ∙ ap₂ ◌⊕◌ (value_all-expand a) (value_all-flip (expand b) ∙ ap r.neg (value_all-expand b))
  value_all-expand (product a b) =
      value_all-times_all (expand a) (expand b) ∙ ap₂ ◌⊗◌ (value_all-expand a) (value_all-expand b)

  value_all-insert_monomial :
      (m : Monomial) (ns : List Monomial)
      → value_all (insert_monomial m ns) ≡ value m ⊕ value_all ns
  value_all-insert_monomial m [] = refl
  value_all-insert_monomial m (n ∷ ns) =
      elim (Bool-cases (ltb (code_of n.factors) (code_of m.factors))) [
        | inl e ↦ rw e (
            ap (λ x. value n ⊕ x) (value_all-insert_monomial m ns)
            ∙ swap_terms (value n) (value m) (value_all ns))
        | inr e ↦ rw e refl
      ]

  value_all-sort_monomials : (ms : List Monomial) → value_all (sort_monomials ms) ≡ value_all ms
  value_all-sort_monomials [] = refl
  value_all-sort_monomials (m ∷ ms) =
      value_all-insert_monomial m (sort_monomials ms)
      ∙ ap (λ x. value m ⊕ x) (value_all-sort_monomials ms)

  -- Expressions with one normal form have one value.
  pub eval-normal_form : (a b : Expr) → normal_form a ≡ normal_form b → eval a ≡ eval b
  eval-normal_form a b e =
      sym (value_all-sort_monomials (expand a) ∙ value_all-expand a)
      ∙ ap value_all e
      ∙ value_all-sort_monomials (expand b)
      ∙ value_all-expand b
