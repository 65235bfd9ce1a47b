-- ===== src/Asterisk/Offline/Prepare/Input.antt =====
-- The input gates.
use qysnc_submission.Common.{ℕ, ◌≡◌, refl, sym, ◌∙◌, ap, subst, ◌==◌, true, List, map}
use mathlib.Core.Logic.{Lift}
use qysnc_submission.Ring.{CommRing}
use qysnc_submission.Sharing.{AuthAddShare}
use qysnc_submission.Circuit.{inp, Gate, gate, out}
use qysnc_submission.Asterisk.{preproc_input, mask}
use qysnc_submission.Asterisk.Shared.{IsSharing}
use qysnc_submission.Asterisk.Online.Setup.{Prepared}
use qysnc_submission.Asterisk.Offline.Role.{
  Tp, Vectors, Preparing, tp_role, party_role, random_share_with_party, draw_secret,
  party_share_with_party,
}
use qysnc_submission.Asterisk.Offline.Gates.{prepare_gate}
use qysnc_submission.Asterisk.Offline.Sync.{IsTp, Every, Joint}
use qysnc_submission.Asterisk.Offline.Calls.WithParty.{with_party-Joint, with_party-key}
use qysnc_submission.Asterisk.Offline.Calls.Owner.{with_party-preproc}
use qysnc_submission.Asterisk.Offline.Together.{put-Joint}
use qysnc_submission.Asterisk.Offline.Place.{
  entry, Every-map, Every-both, map-Every, tp_written, parties_written, with_gates-Extends,
}
use qysnc_submission.Asterisk.Offline.Ready.{
  tp_next, party_next, tpmask_of, Ready-next, sec_of-IsTp,
}
use qysnc_submission.Asterisk.Offline.Prepare.{Prepares, Before}

module _ {ℓ κ} {R : Type ℓ} {G : Type κ} ⦃r : CommRing R⦄ (pid_of : ℕ → ℕ) (d : ℕ → R) where
  -- A party's entry of an input gate: the party that gives the input knows the mask.
  unfoldable pub KnowsInput : Gate R → Preparing R G → ℕ → Type ℓ
  KnowsInput (gate inp o) p id =
      (m : AuthAddShare R) × (mask_value : R) × (entry p o ≡ preproc_input m (pid_of o) mask_value)
      × ((pid_of o == id) ≡ true → mask_value ≡ d o)
  KnowsInput _ p id = Lift {0, ℓ} Unit

module _ {ℓ κ} {R : Type ℓ} {G : Type κ} ⦃r : CommRing R⦄ (randomize : G → R × G) (nP n : ℕ)
    (pid_of : ℕ → ℕ) (whole : Vectors R) (k : R) (d : ℕ → R) where
  pub input-Prepares :
      {D : ℕ → Type 0} (t : Tp R G) (ps : List (Preparing R G)) (o : ℕ)
      → Before randomize nP n pid_of whole k d D t ps (gate inp o)
      → Prepares randomize nP n pid_of whole k d D t ps (gate inp o)
        × Every
            (λ p.
              KnowsInput pid_of d
                (gate inp o)
                (party_next randomize nP n pid_of whole k d (gate inp o) p)
                p.id)
            ps
  unfolding prepare_gate out tp_role party_role Prepared mask KnowsInput
  input-Prepares {D} t ps o h =
      let pid = pid_of o in
      let t' = tp_next randomize nP n pid_of whole k d (gate inp o) t in
      let next = party_next randomize nP n pid_of whole k d (gate inp o) in
      let call = random_share_with_party randomize pid t in
      let sec = (draw_secret randomize pid t).0 in
      let (tp, shared, joint, owner) =
        with_party-Joint randomize nP whole pid t ps h.ready.joint
          (with_gates-Extends randomize nP n whole t ps call.1 _ h.ext) in
      let joint' : Joint nP whole t' (map next ps) =
        put-Joint nP whole call.1 ps _ (λ p. (party_share_with_party randomize nP pid p).1) next
          (λ p. refl) joint in
      let placed =
        parties_written randomize nP n whole t ps o next
          (λ p. let c = party_share_with_party randomize nP pid p in preproc_input c.0.0 pid c.0.1)
          h.below h.ready.sized.parties (λ p. refl) in
      let stored : IsTp nP (tpmask_of randomize nP n pid_of whole k d t' o) sec =
        subst (λ z. IsTp nP (mask z) sec)
          (sym (
            tp_written randomize nP n whole t ps o call.1 _ _ h.below h.ready.sized.tp
              (with_party-preproc randomize pid t)))
          tp in
      let same : map (λ p. mask (entry (next p) o)) ps
          ≡ map (λ p. (party_share_with_party randomize nP pid p).0.0) ps =
        map-Every _ _ ps (Every-map _ _ ps (λ p e. ap mask e) placed) in
      let value : d o ≡ sec =
        h.known ∙ sec_of-IsTp randomize nP n pid_of whole k d t' o sec stored in
      (
        record {
          ready =
              Ready-next randomize nP n pid_of whole k d t ps (gate inp o) sec h.ready h.new joint'
                (with_party-key randomize nP whole pid t h.ready.joint.dealt) stored
                (subst (λ xs. IsSharing xs t.dealer.key sec) (sym same) shared) h.known;
          prepared = λ fin leaves. record { lower = tt };
        },
        Every-both _ _ _ ps (λ p e own. (_, _, e, λ b. own b ∙ sym value)) placed owner,
      )
