-- ===== src/Asterisk/Protocol.antt =====
-- The two phases together: what the offline phase leaves is what the online phase needs.
pub mod Inputs
mod Tests
use qysnc_submission.Common.{
  ℕ, zero, suc, ◌<◌, ◌≤◌, ◌≡◌, refl, sym, ◌∙◌, ap, ap₂, subst, ◌==◌, true, none, some, List, [],
  ◌∷◌, map, length, replicate, arith,
}
use mathlib.Core.Logic.{Lift}
use qysnc_submission.Common.Map.{nat_eq, lookup}
use qysnc_submission.Ring.{CommRing, ◌⊕◌}
use qysnc_submission.Sharing.{TpShare, secret}
use qysnc_submission.Circuit.{inp, Gate, gate, out}
use qysnc_submission.Circuit.Evaluate.{Representation, evaluated, eval_levels, read_all}
use qysnc_submission.Asterisk.{PreprocGate, Party, Checks, mask_at}
use qysnc_submission.Asterisk.Shared.{Everyone}
use qysnc_submission.Asterisk.Online.Round.Deliver.{parties}
use qysnc_submission.Asterisk.Online.Setup.{AllOf, AllOf-imp, with_wires}
use qysnc_submission.Asterisk.Online.Refine.{
  OrderedLevels, Ordered, AfterLevels, AllGates, AllLevels, WithWire,
}
use qysnc_submission.Asterisk.Online.Run.{
  set_inputs, run_levels, output_masks, get_outputs, tpmask_at,
}
use qysnc_submission.Asterisk.Online.Run.Inputs.{
  put_inputs, GetsInput, GivesInput, set_inputs-put_inputs,
}
use qysnc_submission.Asterisk.Online.Run.Phase.{NoInput, Started, online_phase-outputs}
use qysnc_submission.Asterisk.Offline.Role.{Preparing, tp_role}
use qysnc_submission.Asterisk.Offline.Gates.{sec_of}
use qysnc_submission.Asterisk.Offline.Sync.{Every}
use qysnc_submission.Asterisk.Offline.Place.{party_of}
use qysnc_submission.Asterisk.Offline.Prepare.Input.{KnowsInput}
use qysnc_submission.Asterisk.Offline.Sequence.{Supported}
use qysnc_submission.Asterisk.Offline.WireMasks.{set_wire_masks_tp, get_output_masks}
use qysnc_submission.Asterisk.Offline.WireMasks.Outcome.{
  Ran, NoWire, IsPrepared, d_end, t_end, t0, set_wire_masks-IsPrepared,
}
use qysnc_submission.Asterisk.Protocol.Inputs.{
  HasInput, sum_sent, SendsInput, parties-GetsInput, gates-GivesInput, parties-SendsInput,
}

module _ {ℓ} {R : Type ℓ} ⦃r : CommRing R⦄ (x d : ℕ → R) where
  -- `setInputs` succeeds at every party.
  pub Started-exists :
      (given : ℕ → List (ℕ × R)) (from_owner : ℕ → R) (first : List (Gate R)) (zeros : List R)
      (checks : Checks R) (ps : List (Party R))
      → Everyone (λ p. AllGates (GetsInput x d (given p.id) from_owner p) first) ps
      → (states : List (Party R × Checks R)) × Started given from_owner first zeros checks ps states
  Started-exists given from_owner first zeros checks [] h = ([], record { lower = tt })
  Started-exists given from_owner first zeros checks (p ∷ ps) (here, h) =
      let (checks', e) =
        set_inputs-put_inputs x d (given p.id) from_owner p zeros checks first here in
      let (states, st) = Started-exists given from_owner first zeros checks ps h in
      (_ ∷ states, (e, st))

module _ {ℓ κ} {R : Type ℓ} {G : Type κ} ⦃r : CommRing R⦄ (randomize : G → R × G)
    (random_byte : G → ℕ × G) (pid_of : ℕ → ℕ) where
  -- The protocol computes the circuit. With a generator for each of the parties, at least one, the
  -- trusted party's `setWireMasks` and then that of every party succeed, the last party with the
  -- message it is sent; with what they leave `setInputs` succeeds at every party, where the party that
  -- gives an input has it, and the others receive the sum of the input and its mask; in `setInputs`
  -- that party sends this sum and the others send nothing; the plain evaluation of the levels
  -- succeeds; and after the rounds every party's `getOutputs` gives the values of the plain
  -- evaluation. The gates come in the order of levels, each with an output of its own, the inputs on
  -- the first; every wire is the output of a gate; and none is a `kEqz`, `kLtz`, `kRelu`, `kMsb` or
  -- `kTrdotp` gate.
  pub protocol-outputs :
      (nn : Representation R) (pis : List G) (self : G) (n : ℕ) (x : ℕ → R)
      (given : ℕ → List (ℕ × R)) (inputs : List (ℕ × R)) (first : List (Gate R))
      (levels : List (List (Gate R))) (outputs : List ℕ) (checks : Checks R)
      (some_party : 1 ≤ length pis)
      → OrderedLevels n NoWire (first ∷ levels)
      → AllLevels Supported (first ∷ levels)
      → AllLevels NoInput levels
      → ((w : ℕ) → w < n → AfterLevels NoWire (first ∷ levels) w)
      → AllOf (λ w. w < n) outputs
      → AllGates (HasInput pid_of x given inputs) first
      → let (t, message) =
          set_wire_masks_tp randomize random_byte pid_of pis self n (first ∷ levels) in
        (ps : List (Preparing R G)) × (states : List (Party R × Checks R)) × (vw : List R) × Ran
          randomize random_byte pid_of n
          (first ∷ levels)
          (length pis)
          1
          message
          pis
          ps
        × Started given
            (sum_sent x (sec_of (tp_role randomize) t))
            first
            (replicate n r.zero)
            checks
            (map party_of ps)
            states
        × Everyone
            (λ p.
              AllGates (λ g. SendsInput pid_of x (sec_of (tp_role randomize) t) given g p) first)
            (map party_of ps)
        × (eval_levels nn inputs (replicate n r.zero) (first ∷ levels) ≡ evaluated vw)
        × Everyone
            (λ p.
              get_outputs p.wires outputs (output_masks t.preproc outputs) ≡ read_all nn vw outputs)
            (parties (run_levels (first ∷ levels) states))
  unfolding OrderedLevels
  protocol-outputs nn pis self n x given inputs first levels outputs checks some_party ordered
        supported none_later all_wires known has =
      let all = first ∷ levels in
      let d = d_end randomize random_byte pid_of n all pis self some_party in
      let t = t_end randomize random_byte pid_of n all pis self some_party in
      let k = (t0 randomize random_byte pid_of n all pis self some_party).dealer.key in
      let (ps, ran, ready) =
        set_wire_masks-IsPrepared randomize random_byte pid_of n all pis self some_party ordered
          supported in
      let gets = parties-GetsInput pid_of x d given inputs first ps has ready.inputs.0 in
      let (states, started) =
        Started-exists x d given (sum_sent x d) first (replicate n r.zero) checks (map party_of ps)
          gets in
      let (vw, evaluates, right) =
        online_phase-outputs nn (map party_of ps) k n x d given (sum_sent x d) inputs first levels
          outputs t.preproc checks states ready.numbered (omega (arith, ready.count))
          (λ w lt. ready.masks w (all_wires w lt)) gets
          (gates-GivesInput pid_of x d given inputs n NoWire NoWire first ordered.0 has) none_later
          started ordered ready.gates
          (AllOf-imp (λ w. w < n) (AfterLevels NoWire all) outputs all_wires known) ready.tp in
      (
        ps,
        states,
        vw,
        ran,
        started,
        parties-SendsInput pid_of x d given inputs first ps has ready.inputs.0,
        evaluates,
        right,
      )
