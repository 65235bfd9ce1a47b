-- ===== src/Asterisk/Online/Run.antt =====
-- code/src/asterisk/online_evaluator_load_balanced.cpp, `setInputs`, the loop of `evaluateCircuit`
-- over the levels, and `getOutputs`.
pub mod Outputs
pub mod Inputs
pub mod Phase
use qysnc_submission.Common.{
  ℕ, ◌==◌, if◌then◌else◌, Option, none, some, List, [], ◌∷◌, map, get_or, set,
}
use qysnc_submission.Common.Map.{nat_eq, lookup}
use qysnc_submission.Ring.{CommRing, ◌⊕◌, ◌⊖◌}
use qysnc_submission.Sharing.{TpShare, secret}
use qysnc_submission.Circuit.{inp, Gate, gate}
use qysnc_submission.Asterisk.{
  PreprocGate, preproc_gate, preproc_input, mask, Party, Checks, preproc_at,
}
use qysnc_submission.Asterisk.Online.Round.{evaluate_gates_at_depth}

module _ {ℓ} {R : Type ℓ} ⦃r : CommRing R⦄ where
  -- What `setInputs` sends each other party for one gate of level 0: the party whose input it is masks
  -- the value. `none`: the input is another party's, or it is missing.
  unfoldable pub sent_input : List (ℕ × R) → Gate R → Party R → Option R
  sent_input inputs (gate inp o) p = elim (preproc_at p o) [
    | preproc_input m pid mask_value ↦
        let sum : Option R = elim (lookup o inputs) [
          | none ↦ none
          | some x ↦ some (mask_value ⊕ x)
        ] in
        if pid == p.id then sum else none
    | _ ↦ none
  ]
  sent_input inputs _ p = none

  -- `setInputs` for one gate of level 0: the party whose input it is keeps the sum that it sends, the
  -- others store what they receive from it, `from_owner`. `none`: the input is missing, `at` throws.
  unfoldable pub set_input :
      List (ℕ × R) → (ℕ → R) → Gate R → Party R × Checks R → Option (Party R × Checks R)
  unfolding sent_input
  set_input inputs from_owner (gate inp o) (p, checks) = elim (preproc_at p o) [
    | preproc_input m pid mask_value ↦
        let q : R → Option (Party R × Checks R) = λ v.
          some (
            record p { wires = set p.wires o v },
            record checks { q_val = set checks.q_val o v },
          ) in
        if pid == p.id
        then elim (sent_input inputs (gate inp o) p) [ none ↦ none | some v ↦ q v ]
        else q (from_owner o)
    | _ ↦ some (p, checks)
  ]
  set_input inputs from_owner _ st = some st

  unfoldable pub set_inputs :
      List (ℕ × R) → (ℕ → R) → List (Gate R) → Party R × Checks R → Option (Party R × Checks R)
  unfolding set_input
  set_inputs inputs from_owner [] st = some st
  set_inputs inputs from_owner (g ∷ gs) st = elim (set_input inputs from_owner g st) [
    | none ↦ none
    | some st' ↦ set_inputs inputs from_owner gs st'
  ]

  -- The loop over the levels, at all parties.
  pub run_levels : List (List (Gate R)) → List (Party R × Checks R) → List (Party R × Checks R)
  run_levels [] states = states
  run_levels (gs ∷ levels) states = run_levels levels (evaluate_gates_at_depth gs states)

  -- The trusted party's `tpmask` of a wire; out of range, one without values.
  abbrev pub tpmask_at : List (PreprocGate R (TpShare R)) → ℕ → TpShare R
  tpmask_at tp w =
      mask
        (get_or tp w (preproc_gate (record { key = r.zero; key_shs = []; values = []; tags = [] })))

  -- `getOutputs`: the masks that the trusted party sends, which are 0 where there are no values,
  pub output_masks : List (PreprocGate R (TpShare R)) → List ℕ → List R
  unfolding secret
  output_masks tp [] = []
  output_masks tp (w ∷ outputs) =
      let rest = output_masks tp outputs in
      elim (secret (tpmask_at tp w)) [ none ↦ r.zero ∷ rest | some outmask ↦ outmask ∷ rest ]

  -- and what a party makes of them.
  pub get_outputs : List R → List ℕ → List R → List R
  get_outputs wires (w ∷ outputs) (outmask ∷ masks) =
      (get_or wires w r.zero ⊖ outmask) ∷ get_outputs wires outputs masks
  get_outputs wires _ _ = []
