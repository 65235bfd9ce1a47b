-- ===== src/Asterisk/Online/Run/Phase.antt =====
-- The online phase from `setInputs` to `getOutputs`.
use qysnc_submission.Common.{
  ℕ, ◌<◌, ◌≤◌, ◌≡◌, refl, sym, ◌∙◌, ap, ap₂, some, List, [], ◌∷◌, map, length, replicate,
  length-replicate,
}
use mathlib.Core.Logic.{Lift}
use qysnc_submission.Ring.{CommRing}
use qysnc_submission.Sharing.{TpShare, secret}
use qysnc_submission.Circuit.{inp, Gate, gate}
use qysnc_submission.Circuit.Evaluate.{Representation, evaluated, eval_levels, read_all}
use qysnc_submission.Asterisk.{PreprocGate, Party, Checks, mask_at}
use qysnc_submission.Asterisk.Shared.{Numbered, Everyone, Shared}
use qysnc_submission.Asterisk.Online.Round.Deliver.{parties}
use qysnc_submission.Asterisk.Online.Setup.{AllOf, Prepared, with_wires}
use qysnc_submission.Asterisk.Online.Refine.{
  OrderedLevels, AfterLevels, AllGates, AllLevels, InputSet,
}
use qysnc_submission.Asterisk.Online.Run.{
  set_inputs, run_levels, output_masks, get_outputs, tpmask_at,
}
use qysnc_submission.Asterisk.Online.Run.Inputs.{
  put_inputs, GetsInput, GivesInput, set_inputs-put_inputs, put_inputs-InputSet, length-put_inputs,
}
use qysnc_submission.Asterisk.Online.Run.Outputs.{run_levels-outputs}

some_inj {ℓ} : {A : Type ℓ} {a b : A} → some a ≡ some b → a ≡ b
some_inj e = cc

module _ {ℓ} {R : Type ℓ} where
  unfoldable pub NoInput : Gate R → Type ℓ
  NoInput (gate inp o) = Lift {0, ℓ} ⊥
  NoInput _ = Lift {0, ℓ} Unit

module _ {ℓ} {R : Type ℓ} ⦃r : CommRing R⦄ where
  NoInput-InputSet :
      (n : ℕ) (d : ℕ → R) (init : List R) (inputs : List (ℕ × R)) (g : Gate R)
      → NoInput g
      → InputSet n d init inputs g
  unfolding NoInput InputSet
  NoInput-InputSet n d init inputs (gate inp o) h = absurd h.lower
  NoInput-InputSet n d init inputs _ h = record { lower = tt }

  gates_without :
      (n : ℕ) (d : ℕ → R) (init : List R) (inputs : List (ℕ × R)) (gs : List (Gate R))
      → AllGates NoInput gs
      → AllGates (InputSet n d init inputs) gs
  gates_without n d init inputs [] h = record { lower = tt }
  gates_without n d init inputs (g ∷ gs) (here, h) =
      (NoInput-InputSet n d init inputs g here, gates_without n d init inputs gs h)

  levels_without :
      (n : ℕ) (d : ℕ → R) (init : List R) (inputs : List (ℕ × R)) (levels : List (List (Gate R)))
      → AllLevels NoInput levels
      → AllLevels (InputSet n d init inputs) levels
  levels_without n d init inputs [] h = record { lower = tt }
  levels_without n d init inputs (gs ∷ levels) (here, h) =
      (gates_without n d init inputs gs here, levels_without n d init inputs levels h)

  -- The states that `setInputs` leaves: `given` are the inputs of each party, `first` is level 0.
  abbrev pub Started :
      (ℕ → List (ℕ × R))
      → (ℕ → R)
      → List (Gate R)
      → List R
      → Checks R
      → List (Party R)
      → List (Party R × Checks R)
      → Type ℓ
  Started given from_owner first zeros checks [] [] = Lift {0, ℓ} Unit
  Started given from_owner first zeros checks (p ∷ ps) (s ∷ states) =
      (set_inputs (given p.id) from_owner first (with_wires zeros p, checks) ≡ some s)
      × Started given from_owner first zeros checks ps states
  Started given from_owner first zeros checks _ _ = Lift {0, ℓ} ⊥

  Started-parties :
      (x d : ℕ → R) (given : ℕ → List (ℕ × R)) (from_owner : ℕ → R) (first : List (Gate R))
      (zeros : List R) (checks : Checks R) (ps : List (Party R))
      (states : List (Party R × Checks R))
      → Everyone (λ p. AllGates (GetsInput x d (given p.id) from_owner p) first) ps
      → Started given from_owner first zeros checks ps states
      → parties states ≡ map (with_wires (put_inputs x d first zeros)) ps
  Started-parties x d given from_owner first zeros checks [] [] h st = refl
  Started-parties x d given from_owner first zeros checks [] (s ∷ states) h st = absurd st.lower
  Started-parties x d given from_owner first zeros checks (p ∷ ps) [] h st = absurd st.lower
  Started-parties x d given from_owner first zeros checks (p ∷ ps) (s ∷ states) (here, h) (e, st) =
      let (checks', e') =
        set_inputs-put_inputs x d (given p.id) from_owner p zeros checks first here in
      ap₂ ◌∷◌ (ap (λ z. z.0) (some_inj (sym e ∙ e')))
        (Started-parties x d given from_owner first zeros checks ps states h st)

  -- The online phase computes the circuit, from the inputs on. The parties, numbered from 1 and at
  -- least one, begin with zero wires and set the inputs on level 0, where the owner of an input `x`
  -- knows it and its mask and the others receive the sum from it; they share the masks of the wires
  -- and have the preprocessed data of the gates; the gates come in the order of levels, each with an
  -- output of its own, and none is a `kEqz`, `kLtz`, `kRelu`, `kMsb` or `kTrdotp` gate; and the
  -- trusted party knows the masks of the wires. Then the plain evaluation of the levels on these
  -- inputs succeeds, and after the rounds every party's `getOutputs` gives the values of the plain
  -- evaluation.
  pub online_phase-outputs :
      (nn : Representation R) (ps : List (Party R)) (k : R) (n : ℕ) (x d : ℕ → R)
      (given : ℕ → List (ℕ × R)) (from_owner : ℕ → R) (inputs : List (ℕ × R))
      (first : List (Gate R)) (levels : List (List (Gate R))) (outputs : List ℕ)
      (tp : List (PreprocGate R (TpShare R))) (checks : Checks R)
      (states : List (Party R × Checks R))
      → Numbered 1 ps
      → 1 ≤ length ps
      → ((w : ℕ) → w < n → Shared ps k (λ p. mask_at p w) (d w))
      → Everyone (λ p. AllGates (GetsInput x d (given p.id) from_owner p) first) ps
      → AllGates (GivesInput x d n inputs) first
      → AllLevels NoInput levels
      → Started given from_owner first (replicate n r.zero) checks ps states
      → OrderedLevels n (λ w. ⊥) (first ∷ levels)
      → AllLevels (Prepared ps k d) (first ∷ levels)
      → AllOf (AfterLevels (λ w. ⊥) (first ∷ levels)) outputs
      → ((w : ℕ) → AfterLevels (λ w. ⊥) (first ∷ levels) w → secret (tpmask_at tp w) ≡ some (d w))
      → (vw : List R) × (eval_levels nn inputs (replicate n r.zero) (first ∷ levels) ≡ evaluated vw)
        × Everyone
            (λ p. get_outputs p.wires outputs (output_masks tp outputs) ≡ read_all nn vw outputs)
            (parties (run_levels (first ∷ levels) states))
  online_phase-outputs nn ps k n x d given from_owner inputs first levels outputs tp checks states
        ids some_party masks gets gives none_later started ordered prepared known tp_masks =
      let zeros = replicate n r.zero in
      let init = put_inputs x d first zeros in
      let size : length zeros ≡ n = length-replicate n r.zero in
      run_levels-outputs nn ps k n d init inputs ids some_party masks (first ∷ levels) outputs tp
        states (Started-parties x d given from_owner first zeros checks ps states gets started)
        (length-put_inputs x d first zeros ∙ size) ordered prepared
        (
          put_inputs-InputSet x d n inputs first zeros size gives,
          levels_without n d init inputs levels none_later,
        )
        known tp_masks
