-- ===== src/Circuit.antt =====
-- code/src/utils/circuit.h: the gates of an arithmetic circuit, the builder, and the order by levels.
-- A gate is one of the source's gate classes with its type; `out` is the gate's output wire.
pub mod Formed
pub mod Order
pub mod Evaluate
pub mod Faults
mod Tests
use qysnc_submission.Common.{
  ℕ, zero, suc, ◌+◌, max, Bool, true, false, not, ◌&&◌, ◌||◌, List, [], ◌∷◌, ◌++◌, Option, none,
  some, ltb, ◌==◌, if◌then◌else◌, length, get_or, set, replicate,
}

pub data GateType : Type 0 where
  inp : GateType
  add : GateType
  mul : GateType
  mul3 : GateType
  mul4 : GateType
  sub : GateType
  const_add : GateType
  const_mul : GateType
  relu : GateType
  msb : GateType
  eqz : GateType
  ltz : GateType
  dotprod : GateType
  trdotp : GateType
  invalid : GateType

pub data Gate {ℓ} (R : Type ℓ) : Type ℓ where
  gate : GateType → ℕ → Gate R
  fin2 : GateType → ℕ → ℕ → ℕ → Gate R
  fin3 : GateType → ℕ → ℕ → ℕ → ℕ → Gate R
  fin4 : GateType → ℕ → ℕ → ℕ → ℕ → ℕ → Gate R
  fin1 : GateType → ℕ → ℕ → Gate R
  simd : GateType → List ℕ → List ℕ → ℕ → Gate R
  const_op : GateType → ℕ → R → ℕ → Gate R

pub record Circuit {ℓ} (R : Type ℓ) : Type ℓ where
  pub outputs : List ℕ
  pub gates : List (Gate R)

-- What a call of the builder does: it returns the new wire, or throws `invalid_argument`.
pub data Built {ℓ} (R : Type ℓ) : Type ℓ where
  built : Circuit R → ℕ → Built R
  bad_type : Built R
  bad_wire : Built R
  bad_lengths : Built R

-- The types that the overloads of `addGate` accept.
pub is_fin2 : GateType → Bool
is_fin2 add = true
is_fin2 mul = true
is_fin2 sub = true
is_fin2 _ = false

pub is_fin3 : GateType → Bool
is_fin3 mul3 = true
is_fin3 _ = false

pub is_fin4 : GateType → Bool
is_fin4 mul4 = true
is_fin4 _ = false

pub is_const_op : GateType → Bool
is_const_op const_add = true
is_const_op const_mul = true
is_const_op _ = false

pub is_fin1 : GateType → Bool
is_fin1 relu = true
is_fin1 msb = true
is_fin1 eqz = true
is_fin1 ltz = true
is_fin1 _ = false

pub is_simd : GateType → Bool
is_simd dotprod = true
is_simd trdotp = true
is_simd _ = false

module _ {ℓ} {R : Type ℓ} where
  -- `Gate::out`
  unfoldable pub out : Gate R → ℕ
  out (gate type o) = o
  out (fin2 type a b o) = o
  out (fin3 type a b c o) = o
  out (fin4 type a b c d o) = o
  out (fin1 type a o) = o
  out (simd type ws vs o) = o
  out (const_op type a c o) = o

  pub is_wire_valid : Circuit R → ℕ → Bool
  is_wire_valid c wid = ltb wid (length c.gates)

  pub push_gate : Circuit R → Gate R → Built R
  push_gate c g = built (record c { gates = c.gates ++ (g ∷ []) }) (length c.gates)

  pub new_input_wire : Circuit R → Built R
  unfolding push_gate
  new_input_wire c = push_gate c (gate inp (length c.gates))

  -- `none`: it throws.
  pub set_as_output : Circuit R → ℕ → Option (Circuit R)
  unfolding is_wire_valid
  set_as_output c wid =
      if not (is_wire_valid c wid)
      then none
      else some (record c { outputs = c.outputs ++ (wid ∷ []) })

  pub add_gate2 : Circuit R → GateType → ℕ → ℕ → Built R
  unfolding is_fin2 is_wire_valid push_gate
  add_gate2 c type input1 input2 =
      if not (is_fin2 type)
      then bad_type
      else if not (is_wire_valid c input1) || not (is_wire_valid c input2)
      then bad_wire
      else push_gate c (fin2 type input1 input2 (length c.gates))

  pub add_gate3 : Circuit R → GateType → ℕ → ℕ → ℕ → Built R
  unfolding is_fin3 is_wire_valid push_gate
  add_gate3 c type input1 input2 input3 =
      if not (is_fin3 type)
      then bad_type
      else if not (is_wire_valid c input1)
          || not (is_wire_valid c input2)
          || not (is_wire_valid c input3)
      then bad_wire
      else push_gate c (fin3 type input1 input2 input3 (length c.gates))

  pub add_gate4 : Circuit R → GateType → ℕ → ℕ → ℕ → ℕ → Built R
  unfolding is_fin4 is_wire_valid push_gate
  add_gate4 c type input1 input2 input3 input4 =
      if not (is_fin4 type)
      then bad_type
      else if not (is_wire_valid c input1)
          || not (is_wire_valid c input2)
          || not (is_wire_valid c input3)
          || not (is_wire_valid c input4)
      then bad_wire
      else push_gate c (fin4 type input1 input2 input3 input4 (length c.gates))

  pub add_const_op_gate : Circuit R → GateType → ℕ → R → Built R
  unfolding is_const_op is_wire_valid push_gate
  add_const_op_gate c type wid cval =
      if not (is_const_op type)
      then bad_type
      else if not (is_wire_valid c wid)
      then bad_wire
      else push_gate c (const_op type wid cval (length c.gates))

  pub add_gate1 : Circuit R → GateType → ℕ → Built R
  unfolding is_fin1 is_wire_valid push_gate
  add_gate1 c type input =
      if not (is_fin1 type)
      then bad_type
      else if not (is_wire_valid c input)
      then bad_wire
      else push_gate c (fin1 type input (length c.gates))

  -- The loop that checks both vectors; they have the same length.
  pub all_valid : Circuit R → List ℕ → List ℕ → Bool
  unfolding is_wire_valid
  all_valid c (a ∷ ws) (b ∷ vs) =
      if not (is_wire_valid c a) || not (is_wire_valid c b) then false else all_valid c ws vs
  all_valid c _ _ = true

  pub add_gate_simd : Circuit R → GateType → List ℕ → List ℕ → Built R
  unfolding is_simd all_valid push_gate
  add_gate_simd c type input1 input2 =
      if not (is_simd type)
      then bad_type
      else if not (length input1 == length input2)
      then bad_lengths
      else if not (all_valid c input1 input2)
      then bad_wire
      else push_gate c (simd type input1 input2 (length c.gates))
