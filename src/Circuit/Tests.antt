-- ===== src/Circuit/Tests.antt =====
-- The circuit of x * y + x, and each theorem at it.
use qysnc_submission.Common.{
  ℕ, ◌≡◌, refl, Bool, true, not, ◌==◌, if◌then◌else◌, List, [], ◌∷◌, length, get_or, arith, ◌+◌,
}
use qysnc_submission.Bits.Ring.{bool_ring}
use qysnc_submission.Circuit.{
  GateType, inp, add, mul, gate, fin2, fin1, relu, Circuit, new_input_wire, add_gate1, add_gate2,
  add_gate3, add_gate4, add_const_op_gate, add_gate_simd, out, bad_wire, is_fin2,
}
use qysnc_submission.Circuit.Formed.{Fits, Formed, Keeps, builder-Keeps}
use qysnc_submission.Circuit.Order.{order_gates_by_level}
use qysnc_submission.Circuit.Evaluate.{Representation, bad_input_count, evaluate}
use qysnc_submission.Circuit.Faults.{outcome, first_fault, evaluate-fault}
use qysnc_submission.Circuit.Order.Levels.{Levelled}
use qysnc_submission.Circuit.Order.Placed.{gates_on, order_gates_by_level-placed}

abbrev sum_of_product : Circuit ℕ
sum_of_product = record {
  outputs = 3 ∷ [];
  gates = gate inp 0 ∷ gate inp 1 ∷ fin2 mul 0 1 2 ∷ fin2 add 2 0 3 ∷ [];
}

sum_of_product-Formed : Formed 0 sum_of_product.gates
unfolding Formed out Fits is_fin2
sum_of_product-Formed = (
  refl,
  refl,
  (
    refl,
    refl,
    (refl, (refl, omega arith, omega arith), (refl, (refl, omega arith, omega arith), tt)),
  ),
)

rejects_later_wire : add_gate2 sum_of_product mul 0 4 ≡ bad_wire
unfolding add_gate2
rejects_later_wire = refl

builder-Keeps_example :
    Keeps sum_of_product (new_input_wire sum_of_product)
    × ((type : GateType) (a : ℕ) → Keeps sum_of_product (add_gate1 sum_of_product type a))
    × ((type : GateType) (a b : ℕ) → Keeps sum_of_product (add_gate2 sum_of_product type a b))
    × ((type : GateType) (a b d : ℕ) → Keeps sum_of_product (add_gate3 sum_of_product type a b d))
    × ((type : GateType) (a b d e : ℕ)
        → Keeps sum_of_product (add_gate4 sum_of_product type a b d e))
    × ((type : GateType) (a : ℕ) (cval : ℕ)
        → Keeps sum_of_product (add_const_op_gate sum_of_product type a cval))
    × ((type : GateType) (ws vs : List ℕ)
        → Keeps sum_of_product (add_gate_simd sum_of_product type ws vs))
builder-Keeps_example = builder-Keeps sum_of_product sum_of_product-Formed

order_gates_by_level-placed_example :
    (ls : List ℕ) × (depth : ℕ) × Levelled ls depth sum_of_product.gates
    × (length (order_gates_by_level sum_of_product).gates_by_level ≡ depth + 1)
    × ((n : ℕ)
        → get_or (order_gates_by_level sum_of_product).gates_by_level n []
          ≡ gates_on ls n sum_of_product.gates)
order_gates_by_level-placed_example =
    order_gates_by_level-placed sum_of_product sum_of_product-Formed

abbrev bit_circuit : Circuit Bool
bit_circuit = record {
  outputs = 3 ∷ [];
  gates = gate inp 0 ∷ gate inp 1 ∷ fin2 mul 0 1 2 ∷ fin1 relu 2 3 ∷ [];
}

abbrev bits : Representation Bool
bits = record { is_zero = not; sign_bit = λ b. b; truncate = λ b. b; is_bool = true }

-- Two inputs are given, but not for the second wire.
abbrev wrong_wire : List (ℕ × Bool)
wrong_wire = (0, true) ∷ (2, true) ∷ []

evaluate-fault_example :
    let ordered = order_gates_by_level bit_circuit in
    outcome (evaluate bits bit_circuit wrong_wire) ≡ (
      if not (length wrong_wire == get_or ordered.count 0 0)
      then bad_input_count
      else first_fault true wrong_wire ordered.gates_by_level)
evaluate-fault_example = evaluate-fault bits bit_circuit wrong_wire
