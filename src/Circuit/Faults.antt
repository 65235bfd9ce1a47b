-- ===== src/Circuit/Faults.antt =====
-- code/src/utils/circuit.h: what `evaluate` throws. It depends on the gates and on which inputs are
-- there, never on a value.
use qysnc_submission.Common.{
  ℕ, Bool, not, ◌≡◌, refl, ◌∙◌, ap, ◌==◌, if◌then◌else◌, Bool-cases, inl, inr, Option-cases, none,
  some, List, [], ◌∷◌, length, get_or, replicate,
}
use qysnc_submission.Common.Map.{nat_eq, lookup}
use qysnc_submission.Ring.{CommRing}
use qysnc_submission.Circuit.{
  inp, add, mul, mul3, mul4, sub, const_add, const_mul, relu, msb, eqz, ltz, dotprod, trdotp, Gate,
  gate, fin2, fin3, fin4, fin1, simd, const_op, Circuit,
}
use qysnc_submission.Circuit.Order.{order_gates_by_level}
use qysnc_submission.Circuit.Evaluate.{
  Representation, Evaluated, evaluated, bad_input_count, missing_input, not_for_bool, bad_gate_type,
  eval_gate, eval_level, eval_levels, evaluate, read_all,
}

-- The outcome without the values.
unfoldable pub outcome {ℓ} : {A : Type ℓ} → Evaluated A → Evaluated (Unit {0})
outcome (evaluated a) = evaluated tt
outcome bad_input_count = bad_input_count
outcome missing_input = missing_input
outcome not_for_bool = not_for_bool
outcome bad_gate_type = bad_gate_type

-- The first of two outcomes that is not a success.
unfoldable pub first_of : Evaluated (Unit {0}) → Evaluated (Unit {0}) → Evaluated (Unit {0})
first_of (evaluated a) o = o
first_of bad_input_count o = bad_input_count
first_of missing_input o = missing_input
first_of not_for_bool o = not_for_bool
first_of bad_gate_type o = bad_gate_type

module _ {ℓ} {R : Type ℓ} (is_bool : Bool) (inputs : List (ℕ × R)) where
  -- A kind of gate that only a ring with numbers has.
  abbrev numbers_only : Evaluated (Unit {0})
  numbers_only = if is_bool then not_for_bool else evaluated tt

  -- What a gate throws: an input that is not there, or a gate that the ring or `evaluate` lacks.
  unfoldable pub fault : Gate R → Evaluated (Unit {0})
  unfolding lookup
  fault (gate inp o) = elim (lookup o inputs) [ none ↦ missing_input | some v ↦ evaluated tt ]
  fault (fin2 mul a b o) = evaluated tt
  fault (fin3 mul3 a b c o) = evaluated tt
  fault (fin4 mul4 a b c d o) = evaluated tt
  fault (fin2 add a b o) = evaluated tt
  fault (fin2 sub a b o) = evaluated tt
  fault (const_op const_add a c o) = evaluated tt
  fault (const_op const_mul a c o) = evaluated tt
  fault (fin1 eqz a o) = evaluated tt
  fault (fin1 ltz a o) = evaluated tt
  fault (fin1 msb a o) = evaluated tt
  fault (simd dotprod in1 in2 o) = evaluated tt
  fault (fin1 relu a o) = numbers_only
  fault (simd trdotp in1 in2 o) = numbers_only
  fault _ = bad_gate_type

  -- The first fault in the order of levels.
  unfoldable pub level_fault : List (Gate R) → Evaluated (Unit {0})
  unfolding fault first_of
  level_fault [] = evaluated tt
  level_fault (g ∷ gs) = first_of (fault g) (level_fault gs)

  unfoldable pub first_fault : List (List (Gate R)) → Evaluated (Unit {0})
  unfolding level_fault first_of
  first_fault [] = evaluated tt
  first_fault (gs ∷ levels) = first_of (level_fault gs) (first_fault levels)

module _ {ℓ} {R : Type ℓ} ⦃r : CommRing R⦄ (n : Representation R) where
  eval_gate-fault :
      (inputs : List (ℕ × R)) (wires : List R) (g : Gate R)
      → outcome (eval_gate n inputs wires g) ≡ fault n.is_bool inputs g
  unfolding eval_gate fault outcome
  eval_gate-fault inputs wires (gate inp o) = elim (Option-cases (lookup o inputs)) [
    | inl e ↦ rw (e, outcome, fault) refl
    | inr e ↦ rw (e.1, outcome, fault) refl
  ]
  eval_gate-fault inputs wires (fin2 mul a b o) = refl
  eval_gate-fault inputs wires (fin3 mul3 a b c o) = refl
  eval_gate-fault inputs wires (fin4 mul4 a b c d o) = refl
  eval_gate-fault inputs wires (fin2 add a b o) = refl
  eval_gate-fault inputs wires (fin2 sub a b o) = refl
  eval_gate-fault inputs wires (const_op const_add a c o) = refl
  eval_gate-fault inputs wires (const_op const_mul a c o) = refl
  eval_gate-fault inputs wires (fin1 eqz a o) = refl
  eval_gate-fault inputs wires (fin1 ltz a o) = refl
  eval_gate-fault inputs wires (fin1 msb a o) = refl
  eval_gate-fault inputs wires (simd dotprod in1 in2 o) = refl
  eval_gate-fault inputs wires (fin1 relu a o) = elim (Bool-cases n.is_bool) [
    | inl b ↦ rw (b, outcome, fault) refl
    | inr b ↦ rw (b, outcome, fault) refl
  ]
  eval_gate-fault inputs wires (simd trdotp in1 in2 o) = elim (Bool-cases n.is_bool) [
    | inl b ↦ rw (b, outcome, fault) refl
    | inr b ↦ rw (b, outcome, fault) refl
  ]
  eval_gate-fault inputs wires _ = refl

  -- What is thrown first is thrown.
  outcome-first_of :
      {A B : Type ℓ} (e : Evaluated A) (f : A → Evaluated B) (rest : Evaluated (Unit {0}))
      → ((a : A) → outcome (f a) ≡ rest)
      → outcome {A = B} (elim e [
        | evaluated a ↦ f a
        | bad_input_count ↦ bad_input_count
        | missing_input ↦ missing_input
        | not_for_bool ↦ not_for_bool
        | bad_gate_type ↦ bad_gate_type
      ])
        ≡ first_of (outcome e) rest
  unfolding outcome first_of
  outcome-first_of (evaluated a) f rest h = h a
  outcome-first_of bad_input_count f rest h = refl
  outcome-first_of missing_input f rest h = refl
  outcome-first_of not_for_bool f rest h = refl
  outcome-first_of bad_gate_type f rest h = refl

  eval_level-fault :
      (inputs : List (ℕ × R)) (wires : List R) (gs : List (Gate R))
      → outcome (eval_level n inputs wires gs) ≡ level_fault n.is_bool inputs gs
  unfolding eval_level level_fault outcome
  eval_level-fault inputs wires [] = refl
  eval_level-fault inputs wires (g ∷ gs) =
      outcome-first_of (eval_gate n inputs wires g) (λ wires'. eval_level n inputs wires' gs)
        (level_fault n.is_bool inputs gs) (λ wires'. eval_level-fault inputs wires' gs)
      ∙ ap (λ o. first_of o (level_fault n.is_bool inputs gs)) (eval_gate-fault inputs wires g)

  eval_levels-fault :
      (inputs : List (ℕ × R)) (wires : List R) (levels : List (List (Gate R)))
      → outcome (eval_levels n inputs wires levels) ≡ first_fault n.is_bool inputs levels
  unfolding eval_levels first_fault outcome
  eval_levels-fault inputs wires [] = refl
  eval_levels-fault inputs wires (gs ∷ levels) =
      outcome-first_of (eval_level n inputs wires gs) (λ wires'. eval_levels n inputs wires' levels)
        (first_fault n.is_bool inputs levels) (λ wires'. eval_levels-fault inputs wires' levels)
      ∙ ap (λ o. first_of o (first_fault n.is_bool inputs levels))
          (eval_level-fault inputs wires gs)

  first_of-success : (o : Evaluated (Unit {0})) → first_of o (evaluated tt) ≡ o
  unfolding first_of
  first_of-success (evaluated tt) = refl
  first_of-success bad_input_count = refl
  first_of-success missing_input = refl
  first_of-success not_for_bool = refl
  first_of-success bad_gate_type = refl

  -- What `evaluate` throws: with another number of inputs than there are input gates, the error for
  -- that; else the first fault of a gate in the order of levels, and with no fault it gives values.
  -- No value of an input or of a wire matters.
  pub evaluate-fault :
      (c : Circuit R) (inputs : List (ℕ × R))
      → let ordered = order_gates_by_level c in
        outcome (evaluate n c inputs) ≡ (
          if not (length inputs == get_or ordered.count 0 0)
          then bad_input_count
          else first_fault n.is_bool inputs ordered.gates_by_level)
  unfolding evaluate outcome
  evaluate-fault c inputs =
      let ordered = order_gates_by_level c in
      elim (Bool-cases (not (length inputs == get_or ordered.count 0 0))) [
        | inl b ↦ rw (b, evaluate, outcome) refl
        | inr b ↦
            let e =
              eval_levels-fault inputs (replicate ordered.num_gates r.zero)
                ordered.gates_by_level in
            rw (b, evaluate, outcome)
              (outcome-first_of
                  (eval_levels n inputs (replicate ordered.num_gates r.zero) ordered.gates_by_level)
                  (λ wires. evaluated (read_all n wires ordered.outputs)) (evaluated tt)
                  (λ wires. refl)
                ∙ first_of-success _
                ∙ e)
      ]
