-- ===== src/Asterisk/Offline/Phase.antt =====
-- `setWireMasksParty` over a circuit: what the trusted party and the parties have at its end.
use qysnc_submission.Common.{ℕ, ◌≡◌, refl, sym, ◌∙◌, ap, subst, ◌==◌, true, inr, List, [], ◌∷◌, map}
use qysnc_submission.Ring.{CommRing}
use qysnc_submission.Circuit.{inp, Gate, gate, out}
use qysnc_submission.Asterisk.{preproc_gate, mask, no_share}
use qysnc_submission.Asterisk.Online.Refine.{WithWire, AllGates, AfterLevel}
use qysnc_submission.Asterisk.Online.Setup.{Prepared}
use qysnc_submission.Asterisk.Offline.Role.{Tp, Vectors, Preparing, tp_role, party_role}
use qysnc_submission.Asterisk.Offline.Gates.{sec_of, prepare_gates}
use qysnc_submission.Asterisk.Offline.Sync.{Every, Extends}
use qysnc_submission.Asterisk.Offline.Keeps.{tp_role-Keeps, party_role-Keeps}
use qysnc_submission.Asterisk.Offline.Together.{map-map, map-id}
use qysnc_submission.Asterisk.Offline.Place.{entry, party_of}
use qysnc_submission.Asterisk.Offline.Ready.{tp_next, party_next, Ready}
use qysnc_submission.Asterisk.Offline.Prepare.Input.{KnowsInput}
use qysnc_submission.Asterisk.Offline.Sequence.{
  Supported, Written, AfterLevel-known, prepare_gates-get_or, gates-Extends, gate-Prepares,
  gate-Dealt, party_next-id,
}

module _ {ℓ κ} {R : Type ℓ} {G : Type κ} ⦃r : CommRing R⦄ (randomize : G → R × G) (nP n : ℕ)
    (pid_of : ℕ → ℕ) (whole : Vectors R) (k : R) (d : ℕ → R) where
  abbrev pub tp_run : List (Gate R) → Tp R G → Tp R G
  tp_run gs t = prepare_gates (tp_role randomize) pid_of gs t

  abbrev pub party_run : List (Gate R) → Preparing R G → Preparing R G
  party_run gs p = prepare_gates (party_role randomize nP) pid_of gs p

  -- The gates are prepared, whatever the parties do that leaves these entries alone.
  pub record Done (D : ℕ → Type 0) (t : Tp R G) (ps : List (Preparing R G)) (gs : List (Gate R))
      (fin : Preparing R G → Preparing R G) : Type (ℓ ⊔ κ) where
    pub prepared : AllGates (Prepared (map (λ p. party_of (fin (party_run gs p))) ps) k d) gs
    pub inputs :
        AllGates
          (λ g. Every (λ q. KnowsInput pid_of d g q q.id) (map (λ p. fin (party_run gs p)) ps))
          gs

  party_run-id : (gs : List (Gate R)) (p : Preparing R G) → (party_run gs p).id ≡ p.id
  unfolding prepare_gates
  party_run-id [] p = refl
  party_run-id (g ∷ gs) p =
      party_run-id gs (party_next randomize nP n pid_of whole k d g p)
      ∙ party_next-id randomize nP n pid_of whole k d g p

  KnowsInput-one :
      (g : Gate R) (p q q' : Preparing R G)
      → entry q' (out g) ≡ entry q (out g)
      → q'.id ≡ p.id
      → KnowsInput pid_of d g q p.id
      → KnowsInput pid_of d g q' q'.id
  unfolding KnowsInput out
  KnowsInput-one (gate inp o) p q q' e i (m, v, e', own) =
      (m, v, e ∙ e', λ b. own (subst (λ z. (pid_of o == z) ≡ true) i b))
  KnowsInput-one _ p q q' e i h = record { lower = tt }

  KnowsInput-later :
      (g : Gate R) (next fin : Preparing R G → Preparing R G) (ps : List (Preparing R G))
      → ((p : Preparing R G) → entry (fin (next p)) (out g) ≡ entry (next p) (out g))
      → ((p : Preparing R G) → (fin (next p)).id ≡ p.id)
      → Every (λ p. KnowsInput pid_of d g (next p) p.id) ps
      → Every (λ q. KnowsInput pid_of d g q q.id) (map (λ p. fin (next p)) ps)
  unfolding Every
  KnowsInput-later g next fin [] e i h = h
  KnowsInput-later g next fin (p ∷ ps) e i (here, h) = (
    KnowsInput-one g p (next p) (fin (next p)) (e p) (i p) here,
    KnowsInput-later g next fin ps e i h,
  )

  pub gates-Ready :
      (D : ℕ → Type 0) (gs : List (Gate R)) (t : Tp R G) (ps : List (Preparing R G))
      → Ready randomize nP n pid_of whole k d D t ps
      → Written n D gs
      → AllGates Supported gs
      → Extends whole (tp_run gs t)
      → ((w : ℕ) → AfterLevel D gs w → d w ≡ sec_of (tp_role randomize) (tp_run gs t) w)
      → Ready randomize nP n pid_of whole k d
          (AfterLevel D gs)
          (tp_run gs t)
          (map (party_run gs) ps)
        × ((fin : Preparing R G → Preparing R G)
            → ((w : ℕ) → AfterLevel D gs w → (p : Preparing R G) → entry (fin p) w ≡ entry p w)
            → ((p : Preparing R G) → (fin p).id ≡ p.id)
            → Done D t ps gs fin)
  unfolding prepare_gates Written party_role
  gates-Ready D [] t ps h wr s ext known = (
    subst (Ready randomize nP n pid_of whole k d D t) (sym (map-id ps)) h,
    λ fin leaves ids. record { prepared = record { lower = tt }; inputs = record { lower = tt } },
  )
  gates-Ready D (g ∷ gs) t ps h (rd, new, lt, wr) (sg, s) ext known =
      let t1 = tp_next randomize nP n pid_of whole k d g t in
      let next = party_next randomize nP n pid_of whole k d g in
      let at_end : AfterLevel (WithWire D (out g)) gs (out g) =
        AfterLevel-known (WithWire D (out g)) gs (out g) (inr refl) in
      let kept : (p : Preparing R G) (w : ℕ)
          → WithWire D (out g) w
          → entry (party_run gs p) w ≡ entry p w =
        λ p w dw.
          prepare_gates-get_or (party_role randomize nP) pid_of (party_role-Keeps randomize nP) n
            (WithWire D (out g)) gs p w (preproc_gate no_share) wr dw in
      let here = gate-Prepares randomize nP n pid_of whole k d g t ps sg rd (record {
        ready = h;
        new = new;
        below = lt;
        known =
            known (out g) at_end
            ∙ ap (λ x. (tp_role randomize).secret_of (mask x))
                (prepare_gates-get_or (tp_role randomize) pid_of (tp_role-Keeps randomize) n
                  (WithWire D (out g)) gs t1 (out g) _ wr (inr refl));
        ext =
            gates-Extends randomize nP n pid_of whole k d gs t1 ps
              (gate-Dealt randomize nP n pid_of whole k d g t h.joint.dealt) ext;
      }) in
      let rest = gates-Ready (WithWire D (out g)) gs t1 (map next ps) here.0.ready wr s ext known in
      (
        subst
            (Ready randomize nP n pid_of whole k d (AfterLevel (WithWire D (out g)) gs)
              (tp_run gs t1))
            (map-map (party_run gs) next ps) rest.0,
        λ fin leaves ids.
            let fin' : Preparing R G → Preparing R G = λ q. fin (party_run gs q) in
            let leaves' : (p : Preparing R G) → entry (fin' p) (out g) ≡ entry p (out g) =
              λ p. leaves (out g) at_end (party_run gs p) ∙ kept p (out g) (inr refl) in
            let tail = rest.1 fin leaves ids in
            record {
              prepared = (
                here.0.prepared fin' leaves',
                subst (λ qs. AllGates (Prepared qs k d) gs) (map-map _ next ps) tail.prepared,
              );
              inputs = (
                KnowsInput-later g next fin' ps (λ p. leaves' (next p))
                    (λ p.
                      ids (party_run gs (next p))
                      ∙ party_run-id gs (next p)
                      ∙ party_next-id randomize nP n pid_of whole k d g p)
                    here.1,
                subst (λ qs. AllGates (λ z. Every (λ q. KnowsInput pid_of d z q q.id) qs) gs)
                    (map-map _ next ps) tail.inputs,
              );
            },
      )
