-- ===== src/Circuit/Evaluate.antt =====
-- code/src/utils/circuit.h, `evaluate`: the plain evaluation of a circuit, level by level.
use qysnc_submission.Common.{
  ℕ, Bool, not, List, [], ◌∷◌, none, some, ◌==◌, if◌then◌else◌, length, get_or, set, replicate,
}
use qysnc_submission.Common.Map.{nat_eq, lookup}
use qysnc_submission.Ring.{CommRing, ◌⊕◌, ◌⊗◌, ◌⊖◌}
use qysnc_submission.Circuit.{
  inp, add, mul, mul3, mul4, sub, const_add, const_mul, relu, msb, eqz, ltz, dotprod, trdotp, Gate,
  gate, fin2, fin3, fin4, fin1, simd, const_op, Circuit,
}
use qysnc_submission.Circuit.Order.{order_gates_by_level}

-- What NTL's conversions tell of a ring element: whether it is 0, bit 63 of its bits, and it shifted
-- right by `FRACTION`; and whether the ring is `BoolRing`, which the source asks at compile time.
pub record Representation {ℓ} (R : Type ℓ) : Type ℓ where
  pub is_zero : R → Bool
  pub sign_bit : R → Bool
  pub truncate : R → R
  pub is_bool : Bool

-- The values, or what is thrown.
pub data Evaluated {ℓ} (A : Type ℓ) : Type ℓ where
  evaluated : A → Evaluated A
  bad_input_count : Evaluated A
  missing_input : Evaluated A
  not_for_bool : Evaluated A
  bad_gate_type : Evaluated A

module _ {ℓ} {R : Type ℓ} ⦃r : CommRing R⦄ (n : Representation R) where
  -- The loop of a SIMD gate; both vectors have the same length.
  unfoldable pub add_products : List ℕ → List ℕ → List R → R → R
  add_products (a ∷ in1) (b ∷ in2) wires acc =
      add_products in1 in2 wires (acc ⊕ get_or wires a r.zero ⊗ get_or wires b r.zero)
  add_products _ _ wires acc = acc

  -- The `switch` for one gate; a gate whose class does not go with its type counts as invalid.
  unfoldable pub eval_gate : List (ℕ × R) → List R → Gate R → Evaluated (List R)
  unfolding add_products lookup
  eval_gate inputs wires (gate inp o) = elim (lookup o inputs) [
    | none ↦ missing_input
    | some v ↦ evaluated (set wires o v)
  ]
  eval_gate inputs wires (fin2 mul a b o) =
      evaluated (set wires o (get_or wires a r.zero ⊗ get_or wires b r.zero))
  eval_gate inputs wires (fin3 mul3 a b c o) =
      evaluated
        (set wires o (get_or wires a r.zero ⊗ get_or wires b r.zero ⊗ get_or wires c r.zero))
  eval_gate inputs wires (fin4 mul4 a b c d o) = evaluated (
      set wires o (
        get_or wires a r.zero
        ⊗ get_or wires b r.zero
        ⊗ get_or wires c r.zero
        ⊗ get_or wires d r.zero))
  eval_gate inputs wires (fin2 add a b o) =
      evaluated (set wires o (get_or wires a r.zero ⊕ get_or wires b r.zero))
  eval_gate inputs wires (fin2 sub a b o) =
      evaluated (set wires o (get_or wires a r.zero ⊖ get_or wires b r.zero))
  eval_gate inputs wires (const_op const_add a c o) =
      evaluated (set wires o (get_or wires a r.zero ⊕ c))
  eval_gate inputs wires (const_op const_mul a c o) =
      evaluated (set wires o (get_or wires a r.zero ⊗ c))
  eval_gate inputs wires (fin1 eqz a o) =
      evaluated (set wires o (if n.is_zero (get_or wires a r.zero) then r.one else r.zero))
  eval_gate inputs wires (fin1 ltz a o) = evaluated (
      set wires o (
        if n.is_bool
        then get_or wires a r.zero
        else if n.sign_bit (get_or wires a r.zero)
        then r.one
        else r.zero))
  eval_gate inputs wires (fin1 relu a o) =
      if n.is_bool
      then not_for_bool
      else evaluated (
          set wires o
            (if n.sign_bit (get_or wires a r.zero) then r.zero else get_or wires a r.zero))
  eval_gate inputs wires (fin1 msb a o) = evaluated (
      set wires o (
        if n.is_bool
        then get_or wires a r.zero
        else if n.sign_bit (get_or wires a r.zero)
        then r.one
        else r.zero))
  eval_gate inputs wires (simd dotprod in1 in2 o) =
      evaluated (set wires o (add_products in1 in2 wires (get_or wires o r.zero)))
  eval_gate inputs wires (simd trdotp in1 in2 o) =
      if n.is_bool
      then not_for_bool
      else evaluated (set wires o (n.truncate (add_products in1 in2 wires (get_or wires o r.zero))))
  eval_gate inputs wires _ = bad_gate_type

  unfoldable pub eval_level : List (ℕ × R) → List R → List (Gate R) → Evaluated (List R)
  unfolding eval_gate
  eval_level inputs wires [] = evaluated wires
  eval_level inputs wires (g ∷ gs) = elim (eval_gate inputs wires g) [
    | evaluated wires' ↦ eval_level inputs wires' gs
    | bad_input_count ↦ bad_input_count
    | missing_input ↦ missing_input
    | not_for_bool ↦ not_for_bool
    | bad_gate_type ↦ bad_gate_type
  ]

  unfoldable pub eval_levels : List (ℕ × R) → List R → List (List (Gate R)) → Evaluated (List R)
  unfolding eval_level
  eval_levels inputs wires [] = evaluated wires
  eval_levels inputs wires (gs ∷ levels) = elim (eval_level inputs wires gs) [
    | evaluated wires' ↦ eval_levels inputs wires' levels
    | bad_input_count ↦ bad_input_count
    | missing_input ↦ missing_input
    | not_for_bool ↦ not_for_bool
    | bad_gate_type ↦ bad_gate_type
  ]

  abbrev pub read_all : List R → List ℕ → List R
  read_all wires [] = []
  read_all wires (w ∷ outputs) = get_or wires w r.zero ∷ read_all wires outputs

  -- `evaluate`
  unfoldable pub evaluate : Circuit R → List (ℕ × R) → Evaluated (List R)
  unfolding eval_levels
  evaluate c inputs =
      let ordered = order_gates_by_level c in
      if not (length inputs == get_or ordered.count 0 0)
      then bad_input_count
      else elim (eval_levels inputs (replicate ordered.num_gates r.zero) ordered.gates_by_level) [
        | evaluated wires ↦ evaluated (read_all wires ordered.outputs)
        | bad_input_count ↦ bad_input_count
        | missing_input ↦ missing_input
        | not_for_bool ↦ not_for_bool
        | bad_gate_type ↦ bad_gate_type
      ]
