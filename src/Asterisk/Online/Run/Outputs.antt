-- ===== src/Asterisk/Online/Run/Outputs.antt =====
-- The parties' outputs are those of the plain evaluation.
use qysnc_submission.Common.{
  ℕ, suc, ◌<◌, ◌≤◌, ◌≡◌, refl, sym, ◌∙◌, ap, ap₂, subst, inl, inr, Option-cases, none, some, List,
  [], ◌∷◌, map, length, replicate, get_or-replicate, length-replicate,
}
use qysnc_submission.Ring.{CommRing, ◌⊕◌, ◌⊖◌}
use qysnc_submission.Sharing.{TpShare, secret}
use qysnc_submission.Sharing.Mac.{value_of}
use qysnc_submission.Circuit.{Gate, out}
use qysnc_submission.Circuit.Evaluate.{Representation, evaluated, eval_levels, read_all}
use qysnc_submission.Asterisk.{PreprocGate, Party, Checks, mask_at}
use qysnc_submission.Asterisk.Shared.{Numbered, Everyone, Shared}
use qysnc_submission.Asterisk.Online.Round.{slot, evaluate_gates_at_depth}
use qysnc_submission.Asterisk.Online.Round.Deliver.{
  share_of, value_sent, IsReady, AllReady, parties, opened, recv_wires, after_round,
  evaluate_gates_at_depth-after_round,
}
use qysnc_submission.Asterisk.Online.Setup.{
  AllOf, Reads, Prepared, with_wires, sub-mask, length-with_wires, Reads-imp, none-some,
}
use qysnc_submission.Asterisk.Online.Sends.{gate-Sends, IsMasked}
use qysnc_submission.Asterisk.Online.Refine.{
  WithWire, Allowed, Ordered, AfterLevel, AllGates, Opens, InputSet, Follows, OrderedLevels,
  AfterLevels, AllLevels, AfterLevel-below, Follows-restart,
}
use qysnc_submission.Asterisk.Online.Refine.Step.{at, level-Done}
use qysnc_submission.Asterisk.Online.Run.{run_levels, output_masks, get_outputs, tpmask_at}

module _ {ℓ} {R : Type ℓ} ⦃r : CommRing R⦄ where
  total-value_sent :
      (g : Gate R) (ps : List (Party R)) → opened ps g ≡ value_of (map (λ p. share_of p g) ps)
  total-value_sent g [] = refl
  total-value_sent g (p ∷ ps) = ap (λ z. value_sent p g ⊕ z) (total-value_sent g ps)

  Everyone-cons :
      (g : Gate R) (gs : List (Gate R)) (ps : List (Party R))
      → Everyone (λ p. IsReady p g) ps
      → Everyone (λ p. AllReady p gs) ps
      → Everyone (λ p. AllReady p (g ∷ gs)) ps
  Everyone-cons g gs [] h h' = h
  Everyone-cons g gs (p ∷ ps) (a, h) (b, h') = ((a, b), Everyone-cons g gs ps h h')

  Everyone-all :
      (P : Party R → Type ℓ) (ps : List (Party R)) → ((p : Party R) → P p) → Everyone P ps
  Everyone-all P [] f = record { lower = tt }
  Everyone-all P (p ∷ ps) f = (f p, Everyone-all P ps f)

  Everyone-nil : (ps : List (Party R)) → Everyone (λ p. AllReady p []) ps
  Everyone-nil [] = record { lower = tt }
  Everyone-nil (p ∷ ps) = (record { lower = tt }, Everyone-nil ps)

  abbrev next_party : (Gate R → R) → List (Gate R) → Party R → Party R
  next_party f gs p = record p { wires = recv_wires f gs p.wires }

  parties-map :
      (f : Gate R → R) (gs : List (Gate R)) (states : List (Party R × Checks R))
      → parties (map (after_round f gs) states) ≡ map (next_party f gs) (parties states)
  parties-map f gs [] = refl
  parties-map f gs ((p, checks) ∷ states) = ap (◌∷◌ (next_party f gs p)) (parties-map f gs states)

  map-with_wires :
      (f : Gate R → R) (gs : List (Gate R)) (mw : List R) (ps : List (Party R))
      → map (next_party f gs) (map (with_wires mw) ps) ≡ map (with_wires (recv_wires f gs mw)) ps
  map-with_wires f gs mw [] = refl
  map-with_wires f gs mw (p ∷ ps) =
      ap (◌∷◌ (with_wires (recv_wires f gs mw) p)) (map-with_wires f gs mw ps)

  length-parties_map :
      (states : List (Party R × Checks R)) → length (parties states) ≡ length states
  length-parties_map [] = refl
  length-parties_map (s ∷ states) = ap suc (length-parties_map states)

  module _ (nn : Representation R) (ps : List (Party R)) (k : R) (n : ℕ) (d : ℕ → R) (init : List R)
      (inputs : List (ℕ × R)) (ids : Numbered 1 ps) (some_party : 1 ≤ length ps)
      (masks : (w : ℕ) → w < n → Shared ps k (λ p. mask_at p w) (d w)) where
    gate-IsReady :
        (g : Gate R) (D0 D : ℕ → Type 0) (vw mw : List R)
        → ((w : ℕ) → D0 w → (w < n) × (at mw w ≡ at vw w ⊕ d w))
        → Reads (Allowed D0 D g) g
        → out g < n
        → Prepared ps k d g
        → Everyone (λ p. IsReady p g) (map (with_wires mw) ps)
          × Opens d vw (opened (map (with_wires mw) ps)) g
    gate-IsReady g D0 D vw mw known rd lt pr = elim (Option-cases (slot g)) [
      | inl e ↦ (
        Everyone-all (λ p. IsReady p g) (map (with_wires mw) ps)
            (λ p s e'. absurd (none-some (sym e ∙ e'))),
        λ s e'. absurd (none-some (sym e ∙ e')),
      )
      | inr (s, e) ↦
          let reads : Reads D0 g = subst (λ o. Reads (elim o [ none ↦ D | some s' ↦ D0 ]) g) e rd in
          let sends =
            gate-Sends ps k d ids some_party mw (at vw) g s e pr
              (Reads-imp D0 (IsMasked ps k d ids some_party mw (at vw)) g
                (λ w h. (masks w (known w h).0, (known w h).1)) reads)
              (masks (out g) lt) in
          (sends.0, λ s' e'. total-value_sent g (map (with_wires mw) ps) ∙ sends.1.shares.value)
    ]

    -- The gates of a level, at its start.
    level-AllReady :
        (gs : List (Gate R)) (D0 D : ℕ → Type 0) (vw mw : List R)
        → ((w : ℕ) → D0 w → (w < n) × (at mw w ≡ at vw w ⊕ d w))
        → Ordered n D0 D gs
        → AllGates (Prepared ps k d) gs
        → Everyone (λ p. AllReady p gs) (map (with_wires mw) ps)
          × AllGates (Opens d vw (opened (map (with_wires mw) ps))) gs
    unfolding Ordered
    level-AllReady [] D0 D vw mw known o pr =
        (Everyone-nil (map (with_wires mw) ps), record { lower = tt })
    level-AllReady (g ∷ gs) D0 D vw mw known (rd, new, lt, o) (p, pr) =
        let rest = level-AllReady gs D0 (WithWire D (out g)) vw mw known o pr in
        let here = gate-IsReady g D0 D vw mw known rd lt p in
        (Everyone-cons g gs (map (with_wires mw) ps) here.0 rest.0, (here.1, rest.1))

    -- What a run from a state reaches: the plain evaluation ends, and at every party each wire holds
    -- the plain value plus the mask.
    abbrev pub Reaches :
        (D : ℕ → Type 0) (vw : List R) (levels : List (List (Gate R)))
        → List (Party R × Checks R)
        → Type ℓ
    Reaches D vw levels states =
        (vw' mw' : List R) × (eval_levels nn inputs vw levels ≡ evaluated vw')
        × (parties (run_levels levels states) ≡ map (with_wires mw') ps)
        × ((w : ℕ) → AfterLevels D levels w → at mw' w ≡ at vw' w ⊕ d w)

    run_levels-Reaches :
        (levels : List (List (Gate R))) (D : ℕ → Type 0) (vw mw : List R)
        (states : List (Party R × Checks R))
        → parties states ≡ map (with_wires mw) ps
        → Follows n d init D D vw vw mw
        → ((w : ℕ) → D w → w < n)
        → OrderedLevels n D levels
        → AllLevels (Prepared ps k d) levels
        → AllLevels (InputSet n d init inputs) levels
        → Reaches D vw levels states
    unfolding run_levels eval_levels OrderedLevels
    run_levels-Reaches [] D vw mw states e h below o pr is = (vw, mw, refl, e, h.masked)
    run_levels-Reaches (gs ∷ levels) D vw mw states e h below (o, os) (p, pr) (i, is) =
        let f = opened (map (with_wires mw) ps) in
        let ready = level-AllReady gs D D vw mw (λ w dw. (below w dw, h.masked w dw)) o p in
        let (vw', e1, h') = level-Done nn ps k n d init inputs vw f gs h o p i ready.1 in
        let size : length states ≡ length ps =
          sym (length-parties_map states) ∙ ap length e ∙ length-with_wires mw ps in
        let round : evaluate_gates_at_depth gs states ≡ map (after_round f gs) states =
          evaluate_gates_at_depth-after_round gs states (subst (λ m. 1 ≤ m) (sym size) some_party)
            (subst (λ z. Everyone (λ p. AllReady p gs) z) (sym e) ready.0)
          ∙ ap (λ z. map (after_round (opened z) gs) states) e in
        let e' : parties (map (after_round f gs) states)
            ≡ map (with_wires (recv_wires f gs mw)) ps =
          parties-map f gs states ∙ ap (map (next_party f gs)) e ∙ map-with_wires f gs mw ps in
        let rest =
          run_levels-Reaches levels (AfterLevel D gs) vw' (recv_wires f gs mw)
            (map (after_round f gs) states) e' (Follows-restart n d init h')
            (AfterLevel-below n D D gs below o) os pr is in
        (
          rest.0,
          rest.1,
          rw (e1, eval_levels) rest.2,
          ap (λ z. parties (run_levels levels z)) round ∙ rest.3,
          rest.4,
        )

    outputs-read_all :
        (P : ℕ → Type 0) (tp : List (PreprocGate R (TpShare R))) (vw mw : List R) (outputs : List ℕ)
        → ((w : ℕ) → P w → at mw w ≡ at vw w ⊕ d w)
        → ((w : ℕ) → P w → secret (tpmask_at tp w) ≡ some (d w))
        → AllOf P outputs
        → get_outputs mw outputs (output_masks tp outputs) ≡ read_all nn vw outputs
    unfolding get_outputs output_masks AllOf
    outputs-read_all P tp vw mw [] e m h = refl
    outputs-read_all P tp vw mw (w ∷ outputs) e m (here, h) =
        rw (m w here, output_masks)
          (ap₂ ◌∷◌ (ap (λ z. z ⊖ d w) (e w here) ∙ sub-mask (at vw w) (d w))
            (outputs-read_all P tp vw mw outputs e m h))

    Everyone-wires :
        (P : List R → Type ℓ) (mw : List R) (qs : List (Party R))
        → P mw
        → Everyone (λ p. P p.wires) (map (with_wires mw) qs)
    Everyone-wires P mw [] h = record { lower = tt }
    Everyone-wires P mw (q ∷ qs) h = (h, Everyone-wires P mw qs h)

    -- The online phase computes the circuit. The parties, numbered from 1 and at least one, begin
    -- with the same wires, on which every input is set to the input plus its mask; they share the
    -- masks of the wires and have the preprocessed data of the gates; the gates come in the order of
    -- levels, each with an output of its own, and none is a `kEqz`, `kLtz`, `kRelu`, `kMsb` or
    -- `kTrdotp` gate; and the trusted party knows the masks of the output wires. Then the plain
    -- evaluation of the levels succeeds, and after the rounds every party's `getOutputs` gives the
    -- values that the plain evaluation gives.
    pub run_levels-outputs :
        (levels : List (List (Gate R))) (outputs : List ℕ) (tp : List (PreprocGate R (TpShare R)))
        (states : List (Party R × Checks R))
        → parties states ≡ map (with_wires init) ps
        → length init ≡ n
        → OrderedLevels n (λ w. ⊥) levels
        → AllLevels (Prepared ps k d) levels
        → AllLevels (InputSet n d init inputs) levels
        → AllOf (AfterLevels (λ w. ⊥) levels) outputs
        → ((w : ℕ) → AfterLevels (λ w. ⊥) levels w → secret (tpmask_at tp w) ≡ some (d w))
        → (vw : List R) × (eval_levels nn inputs (replicate n r.zero) levels ≡ evaluated vw)
          × Everyone
              (λ p. get_outputs p.wires outputs (output_masks tp outputs) ≡ read_all nn vw outputs)
              (parties (run_levels levels states))
    run_levels-outputs levels outputs tp states e size o pr is known tp_masks =
        let start : Follows n d init (λ w. ⊥) (λ w. ⊥) (replicate n r.zero) (replicate n r.zero)
            init =
          record {
            masked = λ w dw. absurd dw;
            known = λ w dw. dw;
            stays = λ w dw. refl;
            fresh = λ w out. get_or-replicate n w r.zero;
            kept = λ w out. refl;
            plain_size = length-replicate n r.zero;
            masked_size = size;
          } in
        let end =
          run_levels-Reaches levels (λ w. ⊥) (replicate n r.zero) init states e start
            (λ w dw. absurd dw) o pr is in
        let right : get_outputs end.1 outputs (output_masks tp outputs)
            ≡ read_all nn end.0 outputs =
          outputs-read_all (AfterLevels (λ w. ⊥) levels) tp end.0 end.1 outputs end.4 tp_masks
            known in
        (
          end.0,
          end.2,
          subst
              (Everyone (λ p.
                get_outputs p.wires outputs (output_masks tp outputs) ≡ read_all nn end.0 outputs))
              (sym end.3)
              (Everyone-wires
                (λ z. get_outputs z outputs (output_masks tp outputs) ≡ read_all nn end.0 outputs)
                end.1 ps right),
        )
