-- ===== src/Asterisk/Offline/Multiply.antt =====
-- The gates of `setWireMasksParty` that draw: those with products, and the inputs.
use qysnc_submission.Common.{ℕ, ◌<◌, ◌≡◌, refl, sym, ◌∙◌, ap, subst, List, map, length, get_or}
use qysnc_submission.Ring.{CommRing}
use qysnc_submission.Sharing.{AuthAddShare, TpShare}
use qysnc_submission.Circuit.{Gate, out}
use qysnc_submission.Asterisk.{PreprocGate, mask, preproc_at, Party, no_share}
use qysnc_submission.Asterisk.Shared.{IsSharing, Shared, Everyone}
use qysnc_submission.Asterisk.Online.Refine.{WithWire}
use qysnc_submission.Asterisk.Online.Setup.{parts, part_at}
use qysnc_submission.Asterisk.Offline.Role.{Tp, Vectors, Preparing, tp_role, party_share}
use qysnc_submission.Asterisk.Offline.Gates.{sec_of}
use qysnc_submission.Asterisk.Offline.Sync.{IsTp, Every, Extends, Joint}
use qysnc_submission.Asterisk.Offline.Together.{party_products, AllShared}
use qysnc_submission.Asterisk.Offline.Place.{
  entry, party_of, Every-map, map-Every, map-same, tp_after, party_after, gate-ProductsPrepared,
  entry-Shared, entry-Everyone,
}
use qysnc_submission.Asterisk.Offline.Ready.{tp_next, party_next, tpmask_of, Ready, Ready-next}

module _ {ℓ κ} {R : Type ℓ} {G : Type κ} ⦃r : CommRing R⦄ (randomize : G → R × G) (nP n : ℕ)
    (pid_of : ℕ → ℕ) (whole : Vectors R) (k : R) (d : ℕ → R) where
  -- What a gate with the products `vs` leaves at the parties.
  pub record Multiplied (ps : List (Preparing R G)) (g : Gate R) (vs : List R)
      (build : AuthAddShare R → List (AuthAddShare R) → PreprocGate R (AuthAddShare R))
      : Type (ℓ ⊔ κ) where
    pub placed :
        Every
          (λ p.
            entry (party_next randomize nP n pid_of whole k d g p) (out g)
            ≡ build
                (party_share randomize nP p).0
                (party_products randomize nP whole vs (party_share randomize nP p).1).0)
          ps
    pub shared :
        AllShared randomize nP whole ps k
          (λ p. (party_products randomize nP whole vs (party_share randomize nP p).1).0)
          vs

  pub multiply-Ready :
      {D : ℕ → Type 0} (t : Tp R G) (ps : List (Preparing R G)) (g : Gate R) (vs : List R)
      (build_tp : TpShare R → List (TpShare R) → PreprocGate R (TpShare R))
      (build : AuthAddShare R → List (AuthAddShare R) → PreprocGate R (AuthAddShare R))
      → Ready randomize nP n pid_of whole k d D t ps
      → (D (out g) → ⊥)
      → out g < n
      → d (out g) ≡ sec_of (tp_role randomize) (tp_next randomize nP n pid_of whole k d g t) (out g)
      → Extends whole (tp_next randomize nP n pid_of whole k d g t)
      → ((x : TpShare R) (xs : List (TpShare R)) → mask (build_tp x xs) ≡ x)
      → ((x : AuthAddShare R) (xs : List (AuthAddShare R)) → mask (build x xs) ≡ x)
      → tp_next randomize nP n pid_of whole k d g t
        ≡ tp_after randomize nP n whole t ps vs (out g) build_tp
      → ((p : Preparing R G)
          → party_next randomize nP n pid_of whole k d g p
            ≡ party_after randomize nP n whole t ps vs (out g) build p)
      → Ready randomize nP n pid_of whole k d
          (WithWire D (out g))
          (tp_next randomize nP n pid_of whole k d g t)
          (map (party_next randomize nP n pid_of whole k d g) ps)
        × Multiplied ps g vs build
  unfolding tp_role AllShared
  multiply-Ready {D} t ps g vs build_tp build h new lt known ext masks_tp masks et ep =
      let t' = tp_next randomize nP n pid_of whole k d g t in
      let next = party_next randomize nP n pid_of whole k d g in
      let done =
        gate-ProductsPrepared randomize nP n whole t ps vs (out g) build_tp build masks_tp lt
          h.sized h.joint (subst (Extends whole) et ext) in
      let joint : Joint nP whole t' (map next ps) =
        subst (λ z. Joint nP whole z (map next ps)) (sym et)
          (subst (Joint nP whole (tp_after randomize nP n whole t ps vs (out g) build_tp))
            (sym (map-same _ _ ps ep)) done.joint) in
      let placed =
        Every-map _
          (λ p.
            entry (next p) (out g)
            ≡ build (party_share randomize nP p).0
                (party_products randomize nP whole vs (party_share randomize nP p).1).0)
          ps (λ p e. ap (λ q. entry q (out g)) (ep p) ∙ e) done.placed in
      let same : map (λ p. mask (entry (next p) (out g))) ps
          ≡ map (λ p. (party_share randomize nP p).0) ps =
        map-Every _ _ ps
          (Every-map _ _ ps (λ p e. ap mask e ∙ masks (party_share randomize nP p).0 _) placed) in
      (
        Ready-next randomize nP n pid_of whole k d t ps g done.value h new joint
            (ap (λ z. z.dealer.key) et ∙ done.key)
            (subst (λ z. IsTp nP (tpmask_of randomize nP n pid_of whole k d z (out g)) done.value)
              (sym et) (done.tp _))
            (subst (λ xs. IsSharing xs t.dealer.key done.value) (sym same) done.shared) known,
        record {
          placed = placed;
          shared = λ i le.
              subst
                (λ c.
                  IsSharing
                    (map
                      (λ p.
                        get_or
                          (party_products randomize nP whole vs (party_share randomize nP p).1).0 i
                          no_share)
                      ps)
                    c (get_or vs i r.zero))
                h.key (done.products i le);
        },
      )

  -- The parties after the gate, taken on.
  abbrev pub later :
      List (Preparing R G) → Gate R → (Preparing R G → Preparing R G) → List (Party R)
  later ps g fin = map (λ p. party_of (fin (party_next randomize nP n pid_of whole k d g p))) ps

  module _ (ps : List (Preparing R G)) (g : Gate R) (fin : Preparing R G → Preparing R G)
      (leaves : (p : Preparing R G) → entry (fin p) (out g) ≡ entry p (out g)) where
    -- The entries as the parties take them to the online phase.
    placed_later :
        (x : Preparing R G → PreprocGate R (AuthAddShare R))
        → Every (λ p. entry (party_next randomize nP n pid_of whole k d g p) (out g) ≡ x p) ps
        → Every (λ p. entry (fin (party_next randomize nP n pid_of whole k d g p)) (out g) ≡ x p) ps
    placed_later x h =
        Every-map _ _ ps (λ p e. leaves (party_next randomize nP n pid_of whole k d g p) ∙ e) h

    -- The shares of the products, at the places `i` of the entries' parts.
    pub Multiplied-Shared :
        (vs : List R)
        (build : AuthAddShare R → List (AuthAddShare R) → PreprocGate R (AuthAddShare R)) (i : ℕ)
        → Multiplied ps g vs build
        → i < length vs
        → ((p : Preparing R G)
            → get_or
                (parts (
                  build
                    (party_share randomize nP p).0
                    (party_products randomize nP whole vs (party_share randomize nP p).1).0))
                i
                no_share
              ≡ get_or
                  (party_products randomize nP whole vs (party_share randomize nP p).1).0
                  i
                  no_share)
        → Shared (later ps g fin) k (part_at (out g) i) (get_or vs i r.zero)
    unfolding AllShared
    Multiplied-Shared vs build i m le e =
        entry-Shared ps (λ p. fin (party_next randomize nP n pid_of whole k d g p))
          (λ p.
            build (party_share randomize nP p).0
              (party_products randomize nP whole vs (party_share randomize nP p).1).0)
          (out g) k (get_or vs i r.zero) (part_at (out g) i) (λ z. get_or (parts z) i no_share)
          (placed_later _ m.placed) (λ p. refl)
          (subst (λ xs. IsSharing xs k (get_or vs i r.zero)) (sym (map-same _ _ ps e))
            (m.shared i le))

    pub Multiplied-Everyone :
        (vs : List R)
        (build : AuthAddShare R → List (AuthAddShare R) → PreprocGate R (AuthAddShare R))
        (P : PreprocGate R (AuthAddShare R) → Type ℓ)
        → Multiplied ps g vs build
        → ((p : Preparing R G)
            → P (
                build
                  (party_share randomize nP p).0
                  (party_products randomize nP whole vs (party_share randomize nP p).1).0))
        → Everyone (λ q. P (preproc_at q (out g))) (later ps g fin)
    Multiplied-Everyone vs build P m h =
        entry-Everyone P ps (λ p. fin (party_next randomize nP n pid_of whole k d g p)) _ (out g)
          (placed_later _ m.placed) h
