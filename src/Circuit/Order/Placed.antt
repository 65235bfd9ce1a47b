-- ===== src/Circuit/Order/Placed.antt =====
-- Where `orderGatesByLevel` puts the gates: each once, on its level, in the order of the circuit.
use qysnc_submission.Common.{
  ℕ, ◌+◌, ◌<◌, ◌≡◌, refl, sym, ◌∙◌, ap, Bool-cases, inl, inr, List, [], ◌∷◌, ◌++◌, length, get_or,
  set, replicate, append-nil, append_assoc, ◌==◌, if◌then◌else◌, arith, length-set,
  length-replicate, get_or-set_self, get_or-set_ne, get_or-replicate,
}
use qysnc_submission.Circuit.{Gate, Circuit, out}
use qysnc_submission.Circuit.Formed.{Formed}
use qysnc_submission.Circuit.Order.{
  level, assign_levels, push_at, place_gates, order_gates_by_level,
}
use qysnc_submission.Circuit.Order.Levels.{Levelled, levels_of_circuit}

module _ {ℓ} {R : Type ℓ} where
  -- The gates of a list that stand on the level `n`, in their order.
  unfoldable pub gates_on : List ℕ → ℕ → List (Gate R) → List (Gate R)
  gates_on ls n [] = []
  gates_on ls n (g ∷ gs) =
      let rest = gates_on ls n gs in if level ls (out g) == n then g ∷ rest else rest

  length-place_gates :
      (gs : List (Gate R)) (ls : List ℕ) (levels : List (List (Gate R)))
      → length (place_gates gs ls levels) ≡ length levels
  unfolding place_gates push_at
  length-place_gates [] ls levels = refl
  length-place_gates (g ∷ gs) ls levels =
      let m = level ls (out g) in
      let more = get_or levels m [] ++ (g ∷ []) in
      length-place_gates gs ls (set levels m more) ∙ length-set levels m more

  get_or-place_gates :
      (gs : List (Gate R)) (ls : List ℕ) (depth n : ℕ) (levels : List (List (Gate R)))
      → Levelled ls depth gs
      → depth < length levels
      → get_or (place_gates gs ls levels) n [] ≡ get_or levels n [] ++ gates_on ls n gs
  unfolding place_gates push_at Levelled gates_on
  get_or-place_gates [] ls depth n levels h len = sym (append-nil (get_or levels n []))
  get_or-place_gates (g ∷ gs) ls depth n levels (above, le, h) len =
      let m = level ls (out g) in
      let more = get_or levels m [] ++ (g ∷ []) in
      let rest =
        get_or-place_gates gs ls depth n (set levels m more) h
          (omega (arith, length-set levels m more)) in
      elim (Bool-cases (m == n)) [
        | inl e ↦
            let same : m ≡ n = ground arith in
            rw e (
              rest
              ∙ ap (λ xs. xs ++ gates_on ls n gs)
                  (ap (λ k. get_or (set levels m more) k []) (sym same)
                    ∙ get_or-set_self levels m more [] (omega (arith, le))
                    ∙ ap (λ k. get_or levels k [] ++ (g ∷ [])) same)
              ∙ append_assoc (get_or levels n []) (g ∷ []) (gates_on ls n gs))
        | inr e ↦
            let apart : ¬ (m ≡ n) = λ p. ground (arith, p) in
            rw e (rest ∙ ap (λ xs. xs ++ gates_on ls n gs) (get_or-set_ne levels m n more [] apart))
      ]

  -- In a circuit that the builder could have made, `orderGatesByLevel` gives `depth + 1` levels and
  -- puts every gate on the level of its wire: level `n` holds, each once and in the order of the
  -- circuit, the gates whose output wire has the level `n`. No level of a wire is above the depth, and
  -- the level of a gate is not below the levels of its inputs, and strictly above them unless it is
  -- linear.
  pub order_gates_by_level-placed :
      (c : Circuit R)
      → Formed 0 c.gates
      → (ls : List ℕ) × (depth : ℕ) × Levelled ls depth c.gates
        × (length (order_gates_by_level c).gates_by_level ≡ depth + 1)
        × ((n : ℕ) → get_or (order_gates_by_level c).gates_by_level n [] ≡ gates_on ls n c.gates)
  unfolding order_gates_by_level
  order_gates_by_level-placed c h =
      let (ls, depth) = assign_levels c.gates (replicate (length c.gates) 0) 0 in
      let empty : List (List (Gate R)) = replicate (depth + 1) [] in
      let levelled = levels_of_circuit c h in
      (
        ls,
        depth,
        levelled,
        length-place_gates c.gates ls empty ∙ length-replicate (depth + 1) [],
        λ n.
            get_or-place_gates c.gates ls depth n empty levelled
              (omega (arith, length-replicate {A = List (Gate R)} (depth + 1) []))
            ∙ ap (λ xs. xs ++ gates_on ls n c.gates) (get_or-replicate (depth + 1) n []),
      )
