-- ===== src/Circuit/Order.antt =====
-- `orderGatesByLevel`: the multiplicative depth of each wire, and the gates of each depth.
pub mod Levels
pub mod Placed
use qysnc_submission.Common.{
  ℕ, zero, suc, ◌+◌, max, List, [], ◌∷◌, ◌++◌, length, get_or, set, replicate,
}
use qysnc_submission.Circuit.{
  GateType, inp, add, mul, mul3, mul4, sub, const_add, const_mul, relu, msb, eqz, ltz, dotprod,
  trdotp, invalid, Gate, gate, fin2, fin3, fin4, fin1, simd, const_op, Circuit, out,
}

pub record LevelOrderedCircuit {ℓ} (R : Type ℓ) : Type ℓ where
  pub num_gates : ℕ
  pub count : List ℕ
  pub outputs : List ℕ
  pub gates_by_level : List (List (Gate R))

-- The place of a type in `count`.
pub type_index : GateType → ℕ
type_index inp = 0
type_index add = 1
type_index mul = 2
type_index mul3 = 3
type_index mul4 = 4
type_index sub = 5
type_index const_add = 6
type_index const_mul = 7
type_index relu = 8
type_index msb = 9
type_index eqz = 10
type_index ltz = 11
type_index dotprod = 12
type_index trdotp = 13
type_index invalid = 14

abbrev pub level : List ℕ → ℕ → ℕ
level gate_level w = get_or gate_level w 0

-- The loop over the inputs of a SIMD gate.
pub simd_depth : List ℕ → List ℕ → List ℕ → ℕ → ℕ
simd_depth ls (a ∷ ws) (b ∷ vs) gate_depth =
    simd_depth ls ws vs (max (max (level ls a) (level ls b)) gate_depth)
simd_depth ls _ _ gate_depth = gate_depth

module _ {ℓ} {R : Type ℓ} where
  pub type_of : Gate R → GateType
  type_of (gate type o) = type
  type_of (fin2 type a b o) = type
  type_of (fin3 type a b c o) = type
  type_of (fin4 type a b c d o) = type
  type_of (fin1 type a o) = type
  type_of (simd type ws vs o) = type
  type_of (const_op type a c o) = type

  -- The `switch`; an input gate's level is left as it is. Of the gates with two inputs only `mul`
  -- adds to the depth.
  pub gate_level : List ℕ → Gate R → ℕ
  unfolding simd_depth
  gate_level ls (gate type o) = level ls o
  gate_level ls (fin2 mul a b o) = max (level ls a) (level ls b) + 1
  gate_level ls (fin2 _ a b o) = max (level ls a) (level ls b)
  gate_level ls (fin3 type a b c o) = max (max (level ls a) (level ls b)) (level ls c) + 1
  gate_level ls (fin4 type a b c d o) =
      max (max (max (level ls a) (level ls b)) (level ls c)) (level ls d) + 1
  gate_level ls (fin1 type a o) = level ls a + 1
  gate_level ls (simd type ws vs o) = simd_depth ls ws vs 0 + 1
  gate_level ls (const_op type a c o) = level ls a

  -- The first loop over the gates: the levels and the depth.
  pub assign_levels : List (Gate R) → List ℕ → ℕ → List ℕ × ℕ
  unfolding gate_level
  assign_levels [] ls depth = (ls, depth)
  assign_levels (g ∷ gs) ls depth =
      let ls' = set ls (out g) (gate_level ls g) in
      assign_levels gs ls' (max depth (level ls' (out g)))

  pub push_at : List (List (Gate R)) → ℕ → Gate R → List (List (Gate R))
  push_at levels n g = set levels n (get_or levels n [] ++ (g ∷ []))

  -- The second loop: the counts, and the gates put on their levels.
  pub count_types : List (Gate R) → List ℕ → List ℕ
  unfolding type_index type_of
  count_types [] count = count
  count_types (g ∷ gs) count =
      count_types gs
        (set count (type_index (type_of g)) (get_or count (type_index (type_of g)) 0 + 1))

  pub place_gates : List (Gate R) → List ℕ → List (List (Gate R)) → List (List (Gate R))
  unfolding push_at
  place_gates [] ls levels = levels
  place_gates (g ∷ gs) ls levels = place_gates gs ls (push_at levels (level ls (out g)) g)

  pub order_gates_by_level : Circuit R → LevelOrderedCircuit R
  unfolding assign_levels count_types place_gates
  order_gates_by_level c =
      let (ls, depth) = assign_levels c.gates (replicate (length c.gates) 0) 0 in
      record {
        num_gates = length c.gates;
        count = count_types c.gates (replicate 15 0);
        outputs = c.outputs;
        gates_by_level = place_gates c.gates ls (replicate (depth + 1) []);
      }
