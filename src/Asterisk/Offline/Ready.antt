-- ===== src/Asterisk/Offline/Ready.antt =====
-- The masks of the wires prepared so far: the trusted party knows them and the parties share them.
-- One more gate adds its output.
use qysnc_submission.Common.{
  ℕ, ◌≡◌, ◌≢◌, refl, sym, ◌∙◌, ap, subst, inl, inr, List, [], ◌∷◌, map, length,
}
use qysnc_submission.Ring.{CommRing}
use qysnc_submission.Sharing.{TpShare}
use qysnc_submission.Circuit.{Gate, out}
use qysnc_submission.Asterisk.{preproc_gate, mask, no_share}
use qysnc_submission.Asterisk.Shared.{IsSharing}
use qysnc_submission.Asterisk.Online.Refine.{WithWire}
use qysnc_submission.Asterisk.Offline.Role.{Tp, Vectors, Preparing, tp_role, party_role}
use qysnc_submission.Asterisk.Offline.Gates.{prepare_gate, mask_of, sec_of}
use qysnc_submission.Asterisk.Offline.Sync.{IsTp, IsTp-secret, Every, Joint}
use qysnc_submission.Asterisk.Offline.Keeps.{
  prepare_gate-get_or, length-prepare_gate, tp_role-Keeps, party_role-Keeps,
}
use qysnc_submission.Asterisk.Offline.Together.{map-map}
use qysnc_submission.Asterisk.Offline.Place.{Sized, map-same, entry}

module _ {ℓ κ} {R : Type ℓ} {G : Type κ} ⦃r : CommRing R⦄ (randomize : G → R × G) (nP n : ℕ)
    (pid_of : ℕ → ℕ) (whole : Vectors R) (k : R) (d : ℕ → R) where
  abbrev pub tp_next : Gate R → Tp R G → Tp R G
  tp_next g t = (prepare_gate (tp_role randomize) pid_of g t).1

  abbrev pub party_next : Gate R → Preparing R G → Preparing R G
  party_next g p = (prepare_gate (party_role randomize nP) pid_of g p).1

  -- The mask of a wire, at the trusted party.
  abbrev pub tpmask_of : Tp R G → ℕ → TpShare R
  tpmask_of t w = mask_of (tp_role randomize) t w

  -- The wires in `D` are prepared, with the masks `d`.
  pub record Ready (D : ℕ → Type 0) (t : Tp R G) (ps : List (Preparing R G)) : Type (ℓ ⊔ κ) where
    pub joint : Joint nP whole t ps
    pub sized : Sized randomize nP n whole t ps
    pub key : t.dealer.key ≡ k
    pub tp : (w : ℕ) → D w → IsTp nP (tpmask_of t w) (d w)
    pub shared : (w : ℕ) → D w → IsSharing (map (λ p. mask (entry p w)) ps) k (d w)

  pub sec_of-IsTp :
      (t : Tp R G) (w : ℕ) (v : R) → IsTp nP (tpmask_of t w) v → sec_of (tp_role randomize) t w ≡ v
  unfolding tp_role mask
  sec_of-IsTp t w v h = let found = IsTp-secret nP (tpmask_of t w) v h in rw found refl

  pub Ready-sec_of :
      {D : ℕ → Type 0} {t : Tp R G} {ps : List (Preparing R G)} (w : ℕ)
      → Ready D t ps
      → D w
      → sec_of (tp_role randomize) t w ≡ d w
  Ready-sec_of {D} {t} w h dw = sec_of-IsTp t w (d w) (h.tp w dw)

  Every-next :
      (f : Preparing R G → Preparing R G) (ps : List (Preparing R G))
      → ((p : Preparing R G) → length (f p).preproc ≡ length p.preproc)
      → Every (λ p. length p.preproc ≡ n) ps
      → Every (λ p. length p.preproc ≡ n) (map f ps)
  unfolding Every
  Every-next f [] e h = record { lower = tt }
  Every-next f (p ∷ ps) e (here, h) = (e p ∙ here, Every-next f ps e h)

  -- One gate more.
  pub Ready-next :
      {D : ℕ → Type 0} (t : Tp R G) (ps : List (Preparing R G)) (g : Gate R) (v : R)
      → Ready D t ps
      → (D (out g) → ⊥)
      → Joint nP whole (tp_next g t) (map (party_next g) ps)
      → (tp_next g t).dealer.key ≡ t.dealer.key
      → IsTp nP (tpmask_of (tp_next g t) (out g)) v
      → IsSharing (map (λ p. mask (entry (party_next g p) (out g))) ps) t.dealer.key v
      → d (out g) ≡ sec_of (tp_role randomize) (tp_next g t) (out g)
      → Ready (WithWire D (out g)) (tp_next g t) (map (party_next g) ps)
  unfolding tp_role party_role mask
  Ready-next {D} t ps g v h new joint key tp shared known =
      let value : d (out g) ≡ v = known ∙ sec_of-IsTp (tp_next g t) (out g) v tp in
      let apart : (w : ℕ) → D w → w ≢ out g = λ w dw e. new (subst D e dw) in
      let party_keeps = party_role-Keeps randomize nP in
      let tp_keeps = tp_role-Keeps randomize in
      let others : (w : ℕ)
          → D w
          → map (λ p. mask (entry p w)) ps ≡ map (λ p. mask (entry (party_next g p) w)) ps =
        λ w dw. map-same _ _ ps (λ p. sym (
          ap mask (
            prepare_gate-get_or (party_role randomize nP) pid_of party_keeps g p w
              (preproc_gate no_share) (apart w dw)))) in
      record {
        joint = joint;
        sized = record {
          tp = length-prepare_gate (tp_role randomize) pid_of tp_keeps g t ∙ h.sized.tp;
          parties =
              Every-next (party_next g) ps
                (length-prepare_gate (party_role randomize nP) pid_of party_keeps g)
                h.sized.parties;
        };
        key = key ∙ h.key;
        tp = λ w dw. elim dw [
          | inl old ↦
              subst (λ x. IsTp nP x (d w))
                (sym (
                  ap mask (
                    prepare_gate-get_or (tp_role randomize) pid_of tp_keeps g t w _ (apart w old))))
                (h.tp w old)
          | inr e ↦
              subst (λ z. IsTp nP (tpmask_of (tp_next g t) z) (d z)) (sym e)
                (subst (IsTp nP (tpmask_of (tp_next g t) (out g))) (sym value) tp)
        ];
        shared = λ w dw.
            subst (λ xs. IsSharing xs k (d w)) (sym (map-map _ (party_next g) ps))
              (elim dw [
                | inl old ↦ subst (λ xs. IsSharing xs k (d w)) (others w old) (h.shared w old)
                | inr e ↦
                    subst (λ z. IsSharing (map (λ p. mask (entry (party_next g p) z)) ps) k (d z))
                      (sym e)
                      (subst (IsSharing (map (λ p. mask (entry (party_next g p) (out g))) ps) k)
                        (sym value)
                        (subst
                          (λ c. IsSharing (map (λ p. mask (entry (party_next g p) (out g))) ps) c v)
                          h.key shared))
              ]);
      }
