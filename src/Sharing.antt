-- ===== src/Sharing.antt =====
-- code/src/asterisk/sharing.h: additive shares with a MAC. An `AuthAddShare` is one party's share of
-- a value, of its tag, and of the MAC key; a `TPShare` is what the trusted party keeps of all of them,
-- with index 0 for itself. A call that changes its object returns the new one. The shifts and
-- `shift`, which go through NTL's `conv`, are left out.
pub mod Mac
pub mod Dealer
pub mod Total
mod Tests
use qysnc_submission.Common.{
  ℕ, zero, suc, ◌+◌, List, [], ◌∷◌, ◌++◌, Option, none, some, ◌==◌, if◌then◌else◌, map, get_elem?,
}
use qysnc_submission.Ring.{CommRing, ◌⊕◌, ◌⊗◌, ◌⊖◌}

pub record AuthAddShare {ℓ} (R : Type ℓ) : Type ℓ where
  pub key_sh : R
  pub value : R
  pub tag : R

pub record TpShare {ℓ} (R : Type ℓ) : Type ℓ where
  pub key : R
  pub key_shs : List R
  pub values : List R
  pub tags : List R

module _ {ℓ} {R : Type ℓ} ⦃r : CommRing R⦄ where
  -- `operator+=` and `operator+`; the key share is the right operand's.
  unfoldable pub plus : AuthAddShare R → AuthAddShare R → AuthAddShare R
  plus lhs rhs = record {
    key_sh = rhs.key_sh;
    value = lhs.value ⊕ rhs.value;
    tag = lhs.tag ⊕ rhs.tag;
  }

  -- `operator*=` and `operator*` by a constant.
  unfoldable pub times : AuthAddShare R → R → AuthAddShare R
  times lhs rhs = record lhs { value = lhs.value ⊗ rhs; tag = lhs.tag ⊗ rhs }

  -- `operator-=` and `operator-`.
  unfoldable pub minus : AuthAddShare R → AuthAddShare R → AuthAddShare R
  unfolding plus times
  minus lhs rhs = plus lhs (times rhs (r.neg r.one))

  -- `addWithAdder`: the party `adder` adds the constant to its value, every party to its tag.
  pub add_with_adder : AuthAddShare R → R → ℕ → ℕ → AuthAddShare R
  add_with_adder s val pid adder =
      if pid == adder
      then record s { value = s.value ⊕ val; tag = s.tag ⊕ s.key_sh ⊗ val }
      else record s { tag = s.tag ⊕ s.key_sh ⊗ val }

  -- `add`, in which party 1 is the adder.
  unfoldable pub add_const : AuthAddShare R → R → ℕ → AuthAddShare R
  add_const s val pid =
      if pid == 1
      then record s { value = s.value ⊕ val; tag = s.tag ⊕ s.key_sh ⊗ val }
      else record s { tag = s.tag ⊕ s.key_sh ⊗ val }

  -- `pushValues`, `pushTags`, `setKeySh`.
  unfoldable pub push_value : TpShare R → R → TpShare R
  push_value t v = record t { values = t.values ++ (v ∷ []) }

  unfoldable pub push_tag : TpShare R → R → TpShare R
  push_tag t v = record t { tags = t.tags ++ (v ∷ []) }

  unfoldable pub push_key_sh : TpShare R → R → TpShare R
  push_key_sh t v = record t { key_shs = t.key_shs ++ (v ∷ []) }

  unfoldable pub sum_from : R → List R → R
  sum_from res [] = res
  sum_from res (v ∷ vs) = sum_from (res ⊕ v) vs

  -- `secret`; `none` where `values_[0]` is read from an empty vector.
  unfoldable pub secret : TpShare R → Option R
  unfolding sum_from
  secret t = elim t.values [ [] ↦ none | v ∷ vs ↦ some (sum_from v vs) ]

  -- `getAAS`; `none` where an index is out of range.
  pub get_aas : TpShare R → ℕ → Option (AuthAddShare R)
  get_aas t pid = elim (get_elem? t.key_shs pid) [
    | none ↦ none
    | some k ↦ elim (get_elem? t.values pid) [
      | none ↦ none
      | some v ↦ elim (get_elem? t.tags pid) [
        | none ↦ none
        | some g ↦ some (record { key_sh = k; value = v; tag = g })
      ]
    ]
  ]

  -- The loops of `TPShare` run over the places from 1 on; the vectors have the same length.
  pub combine : (R → R → R) → List R → List R → List R
  combine f (x ∷ xs) (y ∷ ys) = f x y ∷ combine f xs ys
  combine f xs _ = xs

  pub combine_rest : (R → R → R) → List R → List R → List R
  unfolding combine
  combine_rest f (x ∷ xs) (y ∷ ys) = x ∷ combine f xs ys
  combine_rest f xs _ = xs

  pub map_rest : (R → R) → List R → List R
  map_rest f [] = []
  map_rest f (x ∷ xs) = x ∷ map f xs

  -- `operator+=`, `operator*=` and `operator-=` of `TPShare`, and `+`, `*`, `-`.
  pub tp_plus : TpShare R → TpShare R → TpShare R
  unfolding combine_rest
  tp_plus lhs rhs = record {
    key = rhs.key;
    key_shs = combine_rest (λ a b. b) lhs.key_shs rhs.key_shs;
    values = combine_rest (λ a b. a ⊕ b) lhs.values rhs.values;
    tags = combine_rest (λ a b. a ⊕ b) lhs.tags rhs.tags;
  }

  pub tp_times : TpShare R → R → TpShare R
  unfolding map_rest
  tp_times lhs rhs = record lhs {
    values = map_rest (λ a. a ⊗ rhs) lhs.values;
    tags = map_rest (λ a. a ⊗ rhs) lhs.tags;
  }

  pub tp_minus : TpShare R → TpShare R → TpShare R
  unfolding tp_plus tp_times
  tp_minus lhs rhs = tp_plus lhs (tp_times rhs (r.neg r.one))
