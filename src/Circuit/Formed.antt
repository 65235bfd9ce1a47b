-- ===== src/Circuit/Formed.antt =====
-- What the builder builds: each gate's output is its place, and its inputs are outputs of gates before.
use qysnc_submission.Common.{
  ℕ, suc, ◌+◌, ◌<◌, ◌≡◌, refl, ◌∙◌, subst, true, not, ◌||◌, List, [], ◌∷◌, ◌++◌, ltb, ◌==◌, length,
  arith, Bool-cases, inl, inr, length-append,
}
use qysnc_submission.Circuit.{
  GateType, inp, Gate, gate, fin2, fin3, fin4, fin1, simd, const_op, Circuit, Built, built, is_fin2,
  is_fin3, is_fin4, is_const_op, is_fin1, is_simd, is_wire_valid, push_gate, new_input_wire,
  add_gate2, add_gate3, add_gate4, add_const_op_gate, add_gate1, all_valid, add_gate_simd, out,
}

unfoldable pub AllBelow : ℕ → List ℕ → Type 0
AllBelow k [] = Unit
AllBelow k (w ∷ ws) = (w < k) × AllBelow k ws

module _ {ℓ} {R : Type ℓ} where
  -- A gate of a class that goes with its type, whose inputs are wires below `k`.
  unfoldable pub Fits : ℕ → Gate R → Type 0
  Fits k (gate type o) = type ≡ inp
  Fits k (fin2 type a b o) = (is_fin2 type ≡ true) × (a < k) × (b < k)
  Fits k (fin3 type a b c o) = (is_fin3 type ≡ true) × (a < k) × (b < k) × (c < k)
  Fits k (fin4 type a b c d o) = (is_fin4 type ≡ true) × (a < k) × (b < k) × (c < k) × (d < k)
  Fits k (fin1 type a o) = (is_fin1 type ≡ true) × (a < k)
  Fits k (simd type ws vs o) =
      (is_simd type ≡ true) × (length ws ≡ length vs) × AllBelow k ws × AllBelow k vs
  Fits k (const_op type a c o) = (is_const_op type ≡ true) × (a < k)

  -- The gates from place `k` on.
  unfoldable pub Formed : ℕ → List (Gate R) → Type 0
  Formed k [] = Unit
  Formed k (g ∷ gs) = (out g ≡ k) × Fits k g × Formed (suc k) gs

  Formed-push :
      (k : ℕ) (gs : List (Gate R)) (g : Gate R)
      → Formed k gs
      → out g ≡ k + length gs
      → Fits (k + length gs) g
      → Formed k (gs ++ (g ∷ []))
  unfolding Formed
  Formed-push k [] g h e f = (e ∙ omega arith, subst (λ n. Fits n g) (omega arith) f, tt)
  Formed-push k (g' ∷ gs) g (e', f', h) e f =
      (e', f', Formed-push (suc k) gs g h (e ∙ omega arith) (subst (λ n. Fits n g) (omega arith) f))

  -- What a call of the builder leaves: one gate more, in its place, or nothing changed.
  unfoldable pub Keeps : Circuit R → Built R → Type 0
  Keeps c (built c' wid) =
      (Formed 0 c'.gates)
      × (wid ≡ length c.gates)
      × (length c'.gates ≡ suc wid)
      × (c'.outputs ≡ c.outputs)
  Keeps c _ = Unit

  push_gate-Keeps :
      (c : Circuit R) (g : Gate R)
      → Formed 0 c.gates
      → out g ≡ length c.gates
      → Fits (length c.gates) g
      → Keeps c (push_gate c g)
  unfolding push_gate Keeps
  push_gate-Keeps c g h e f = (
    Formed-push 0 c.gates g h (e ∙ omega arith) (subst (λ n. Fits n g) (omega arith) f),
    refl,
    length-append c.gates (g ∷ []) ∙ omega arith,
    refl,
  )

  add_gate2-Keeps :
      (c : Circuit R) (type : GateType) (a b : ℕ)
      → Formed 0 c.gates
      → Keeps c (add_gate2 c type a b)
  unfolding add_gate2 is_wire_valid Keeps out Fits
  add_gate2-Keeps c type a b h = elim (Bool-cases (is_fin2 type)) [
    | inr bad ↦ rw (bad, add_gate2) tt
    | inl ok ↦ elim (Bool-cases (not (ltb a (length c.gates)) || not (ltb b (length c.gates)))) [
      | inl bad ↦ rw (ok, bad, add_gate2) tt
      | inr good ↦
          rw (ok, good, add_gate2)
            (push_gate-Keeps c (fin2 type a b (length c.gates)) h refl
              (ok, ground arith, ground arith))
    ]
  ]

  add_gate3-Keeps :
      (c : Circuit R) (type : GateType) (a b d : ℕ)
      → Formed 0 c.gates
      → Keeps c (add_gate3 c type a b d)
  unfolding add_gate3 is_wire_valid Keeps out Fits
  add_gate3-Keeps c type a b d h = elim (Bool-cases (is_fin3 type)) [
    | inr bad ↦ rw (bad, add_gate3) tt
    | inl ok ↦
        elim (Bool-cases (
          not (ltb a (length c.gates))
          || not (ltb b (length c.gates))
          || not (ltb d (length c.gates)))) [
            | inl bad ↦ rw (ok, bad, add_gate3) tt
            | inr good ↦
                rw (ok, good, add_gate3)
                  (push_gate-Keeps c (fin3 type a b d (length c.gates)) h refl
                    (ok, ground arith, ground arith, ground arith))
          ]
  ]

  add_gate4-Keeps :
      (c : Circuit R) (type : GateType) (a b d e : ℕ)
      → Formed 0 c.gates
      → Keeps c (add_gate4 c type a b d e)
  unfolding add_gate4 is_wire_valid Keeps out Fits
  add_gate4-Keeps c type a b d e h = elim (Bool-cases (is_fin4 type)) [
    | inr bad ↦ rw (bad, add_gate4) tt
    | inl ok ↦
        elim (Bool-cases (
          not (ltb a (length c.gates))
          || not (ltb b (length c.gates))
          || not (ltb d (length c.gates))
          || not (ltb e (length c.gates)))) [
            | inl bad ↦ rw (ok, bad, add_gate4) tt
            | inr good ↦
                rw (ok, good, add_gate4)
                  (push_gate-Keeps c (fin4 type a b d e (length c.gates)) h refl
                    (ok, ground arith, ground arith, ground arith, ground arith))
          ]
  ]

  add_const_op_gate-Keeps :
      (c : Circuit R) (type : GateType) (a : ℕ) (cval : R)
      → Formed 0 c.gates
      → Keeps c (add_const_op_gate c type a cval)
  unfolding add_const_op_gate is_wire_valid Keeps out Fits
  add_const_op_gate-Keeps c type a cval h = elim (Bool-cases (is_const_op type)) [
    | inr bad ↦ rw (bad, add_const_op_gate) tt
    | inl ok ↦ elim (Bool-cases (not (ltb a (length c.gates)))) [
      | inl bad ↦ rw (ok, bad, add_const_op_gate) tt
      | inr good ↦
          rw (ok, good, add_const_op_gate)
            (push_gate-Keeps c (const_op type a cval (length c.gates)) h refl (ok, ground arith))
    ]
  ]

  add_gate1-Keeps :
      (c : Circuit R) (type : GateType) (a : ℕ) → Formed 0 c.gates → Keeps c (add_gate1 c type a)
  unfolding add_gate1 is_wire_valid Keeps out Fits
  add_gate1-Keeps c type a h = elim (Bool-cases (is_fin1 type)) [
    | inr bad ↦ rw (bad, add_gate1) tt
    | inl ok ↦ elim (Bool-cases (not (ltb a (length c.gates)))) [
      | inl bad ↦ rw (ok, bad, add_gate1) tt
      | inr good ↦
          rw (ok, good, add_gate1)
            (push_gate-Keeps c (fin1 type a (length c.gates)) h refl (ok, ground arith))
    ]
  ]

  all_valid-AllBelow :
      (c : Circuit R) (ws vs : List ℕ)
      → length ws ≡ length vs
      → all_valid c ws vs ≡ true
      → AllBelow (length c.gates) ws × AllBelow (length c.gates) vs
  unfolding all_valid is_wire_valid AllBelow
  all_valid-AllBelow c [] [] e h = (tt, tt)
  all_valid-AllBelow c [] (v ∷ vs) e h = absurd (omega arith)
  all_valid-AllBelow c (w ∷ ws) [] e h = absurd (omega arith)
  all_valid-AllBelow c (w ∷ ws) (v ∷ vs) e h =
      let (below, below') = all_valid-AllBelow c ws vs (omega arith) (ground arith) in
      ((ground arith, below), (ground arith, below'))

  add_gate_simd-Keeps :
      (c : Circuit R) (type : GateType) (ws vs : List ℕ)
      → Formed 0 c.gates
      → Keeps c (add_gate_simd c type ws vs)
  unfolding add_gate_simd Keeps out Fits
  add_gate_simd-Keeps c type ws vs h = elim (Bool-cases (is_simd type)) [
    | inr bad ↦ rw (bad, add_gate_simd) tt
    | inl ok ↦ elim (Bool-cases (length ws == length vs)) [
      | inr bad ↦ rw (ok, bad, add_gate_simd) tt
      | inl same ↦ elim (Bool-cases (all_valid c ws vs)) [
        | inr bad ↦ rw (ok, same, bad, add_gate_simd) tt
        | inl good ↦
            let lengths : length ws ≡ length vs = ground arith in
            let below = all_valid-AllBelow c ws vs lengths good in
            rw (ok, same, good, add_gate_simd)
              (push_gate-Keeps c (simd type ws vs (length c.gates)) h refl
                (ok, lengths, below.0, below.1))
      ]
    ]
  ]

  new_input_wire-Keeps : (c : Circuit R) → Formed 0 c.gates → Keeps c (new_input_wire c)
  unfolding new_input_wire Keeps out Fits
  new_input_wire-Keeps c h = push_gate-Keeps c (gate inp (length c.gates)) h refl refl

  -- Each call of the builder on a circuit in which every gate stands in the place of its output,
  -- is of the class that its type needs, and reads outputs of gates before it, throws or returns
  -- a circuit with one more gate that is so too; the new wire is the number of gates before, and
  -- the outputs stay.
  pub builder-Keeps :
      (c : Circuit R)
      → Formed 0 c.gates
      → Keeps c (new_input_wire c)
        × ((type : GateType) (a : ℕ) → Keeps c (add_gate1 c type a))
        × ((type : GateType) (a b : ℕ) → Keeps c (add_gate2 c type a b))
        × ((type : GateType) (a b d : ℕ) → Keeps c (add_gate3 c type a b d))
        × ((type : GateType) (a b d e : ℕ) → Keeps c (add_gate4 c type a b d e))
        × ((type : GateType) (a : ℕ) (cval : R) → Keeps c (add_const_op_gate c type a cval))
        × ((type : GateType) (ws vs : List ℕ) → Keeps c (add_gate_simd c type ws vs))
  builder-Keeps c h = (
    new_input_wire-Keeps c h,
    λ type a. add_gate1-Keeps c type a h,
    λ type a b. add_gate2-Keeps c type a b h,
    λ type a b d. add_gate3-Keeps c type a b d h,
    λ type a b d e. add_gate4-Keeps c type a b d e h,
    λ type a cval. add_const_op_gate-Keeps c type a cval h,
    λ type ws vs. add_gate_simd-Keeps c type ws vs h,
  )
