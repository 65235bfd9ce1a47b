-- ===== src/Asterisk/Offline/WireMasks/Outcome.antt =====
-- What `setWireMasks` leaves for the online phase.
use qysnc_submission.Common.{
  ℕ, suc, ◌≤◌, ◌≡◌, refl, sym, ◌∙◌, ap, subst, ◌==◌, Bool-cases, inl, inr, some, List, [], ◌∷◌,
  append-nil, map, length, length-replicate,
}
use mathlib.Core.Logic.{Lift}
use qysnc_submission.Ring.{CommRing}
use qysnc_submission.Sharing.{secret}
use qysnc_submission.Circuit.{Gate}
use qysnc_submission.Asterisk.{mask, mask_at}
use qysnc_submission.Asterisk.Shared.{Numbered, IsSharing, Shared}
use qysnc_submission.Asterisk.Online.Run.{tpmask_at}
use qysnc_submission.Asterisk.Online.Setup.{Prepared}
use qysnc_submission.Asterisk.Online.Refine.{
  OrderedLevels, AfterLevel, AfterLevels, AllGates, AllLevels,
}
use qysnc_submission.Asterisk.Offline.Role.{Tp, Vectors, Preparing, tp_role, party_role}
use qysnc_submission.Asterisk.Offline.Gates.{
  flat, sec_of, prepare_gates, prepare_levels, prepare_levels-flat,
}
use qysnc_submission.Asterisk.Offline.Sync.{IsTp, IsTp-secret, Every, Synced}
use qysnc_submission.Asterisk.Offline.Together.{map-map}
use qysnc_submission.Asterisk.Offline.Linear.{entries-Shared}
use qysnc_submission.Asterisk.Offline.Place.{entry, party_of, map-same}
use qysnc_submission.Asterisk.Offline.Ready.{Ready}
use qysnc_submission.Asterisk.Offline.Prepare.Input.{KnowsInput}
use qysnc_submission.Asterisk.Offline.Sequence.{Supported}
use qysnc_submission.Asterisk.Offline.Phase.{gates-Ready}
use qysnc_submission.Asterisk.Offline.Transfer.{Message, recv_masks, recv_masks-send_masks}
use qysnc_submission.Asterisk.Offline.WireMasks.{
  no_vectors, start_tp, start_party, set_wire_masks_tp, set_wire_masks_party,
}
use qysnc_submission.Asterisk.Offline.WireMasks.Start.{start_parties, start-Joint}
use qysnc_submission.Asterisk.Offline.WireMasks.Order.{
  OrderedLevels-Written, AfterLevels-flat, AllLevels-flat, flat-AllLevels,
}

-- No wire is known at first.
abbrev pub NoWire : ℕ → Type 0
NoWire w = ⊥

module _ {ℓ κ} {R : Type ℓ} {G : Type κ} ⦃r : CommRing R⦄ (randomize : G → R × G)
    (random_byte : G → ℕ × G) (pid_of : ℕ → ℕ) (n : ℕ) (levels : List (List (Gate R))) where
  -- The parties from `pid` on run `setWireMasks`, and have `ps` at its end.
  unfoldable pub Ran : ℕ → ℕ → Message R → List G → List (Preparing R G) → Type (ℓ ⊔ κ)
  Ran nP pid message [] [] = Lift {0, _} Unit
  Ran nP pid message (g ∷ pis) (p ∷ ps) =
      (set_wire_masks_party randomize random_byte pid_of nP pid g n levels message ≡ some p)
      × Ran nP (suc pid) message pis ps
  Ran nP pid message _ _ = Lift {0, _} ⊥

  -- The vectors that the trusted party has put together.
  abbrev pub vectors_of : Tp R G → Vectors R
  vectors_of t = record {
    rand_sh = t.dealer.rand_sh;
    rand_sh_sec = t.dealer.rand_sh_sec;
    rand_sh_party = t.rand_sh_party;
  }

  start_parties-Ran :
      (nP pid : ℕ) (message : Message R) (whole : Vectors R) (pis : List G)
      → recv_masks message ≡ some (whole, no_vectors)
      → Ran nP pid message pis (
          map
            (prepare_levels (party_role randomize nP) pid_of levels)
            (start_parties randomize random_byte n nP whole pid pis))
  unfolding Ran set_wire_masks_party
  start_parties-Ran nP pid message whole [] e = record { lower = tt }
  start_parties-Ran nP pid message whole (g ∷ pis) e = (
    elim (Bool-cases (pid == nP)) [
      | inl b ↦ rw (b, e, set_wire_masks_party) refl
      | inr b ↦ rw (b, set_wire_masks_party) refl
    ],
    start_parties-Ran nP (suc pid) message whole pis e,
  )

  -- The parties `ps` and the trusted party `t` have what the online phase needs: `k` is the key, `d`
  -- are the masks of the wires.
  pub record IsPrepared (nP : ℕ) (k : R) (d : ℕ → R) (t : Tp R G) (ps : List (Preparing R G))
      : Type (ℓ ⊔ κ) where
    pub numbered : Numbered 1 (map party_of ps)
    pub count : length (map party_of ps) ≡ nP
    pub gates : AllLevels (Prepared (map party_of ps) k d) levels
    pub masks :
        (w : ℕ) → AfterLevels NoWire levels w → Shared (map party_of ps) k (λ p. mask_at p w) (d w)
    pub tp : (w : ℕ) → AfterLevels NoWire levels w → secret (tpmask_at t.preproc w) ≡ some (d w)
    pub inputs : AllLevels (λ g. Every (λ q. KnowsInput pid_of d g q q.id) ps) levels

  Synced-Numbered :
      (nP pid : ℕ) (ks : List R) (gs : List G) (rest : Vectors R) (ps : List (Preparing R G))
      → Synced nP pid ks gs rest ps
      → Numbered pid (map party_of ps) × (length (map party_of ps) ≡ length gs)
  unfolding Synced
  Synced-Numbered nP pid [] [] rest [] h = (tt, refl)
  Synced-Numbered nP pid (k ∷ ks) (g ∷ gs) rest (p ∷ ps) (here, h) =
      let others = Synced-Numbered nP (suc pid) ks gs rest ps h in
      ((here.id, others.0), ap suc others.1)
  Synced-Numbered nP pid [] [] rest (p ∷ ps) h = absurd h.lower
  Synced-Numbered nP pid [] (x ∷ gs) rest ps h = absurd h.lower
  Synced-Numbered nP pid (k ∷ ks) [] rest ps h = absurd h.lower
  Synced-Numbered nP pid (k ∷ ks) (x ∷ gs) rest [] h = absurd h.lower

  start_parties-sizes :
      (nP pid : ℕ) (whole : Vectors R) (pis : List G)
      → Every (λ p. length p.preproc ≡ n) (start_parties randomize random_byte n nP whole pid pis)
  unfolding Every start_party
  start_parties-sizes nP pid whole [] = record { lower = tt }
  start_parties-sizes nP pid whole (g ∷ pis) =
      (length-replicate n _, start_parties-sizes nP (suc pid) whole pis)

  module _ (pis : List G) (self : G) (some_party : 1 ≤ length pis) where
    abbrev nP : ℕ
    nP = length pis

    -- The trusted party at the start and at the end, and the key.
    abbrev pub t0 : Tp R G
    t0 = (start_tp randomize random_byte pis self n).0

    abbrev pub t_end : Tp R G
    t_end = (set_wire_masks_tp randomize random_byte pid_of pis self n levels).0

    abbrev pub d_end : ℕ → R
    d_end = sec_of (tp_role randomize) t_end

    abbrev whole : Vectors R
    whole = vectors_of t_end

    abbrev ps0 : List (Preparing R G)
    ps0 = start_parties randomize random_byte n nP whole 1 pis

    start-Ready : Ready randomize nP n pid_of whole t0.dealer.key d_end NoWire t0 ps0
    unfolding start_tp
    start-Ready = record {
      joint = start-Joint randomize random_byte n nP whole pis self some_party refl;
      sized = record { tp = length-replicate n _; parties = start_parties-sizes nP 1 whole pis };
      key = refl;
      tp = λ w h. absurd h;
      shared = λ w h. absurd h;
    }

    same_end : t_end ≡ prepare_gates (tp_role randomize) pid_of (flat levels) t0
    unfolding set_wire_masks_tp
    same_end = prepare_levels-flat (tp_role randomize) pid_of levels t0

    -- `setWireMasks` prepares the online phase. With a generator for each of the parties, at least
    -- one, the gates in the order of levels, each with an output of its own, and none a `kEqz`,
    -- `kLtz`, `kRelu`, `kMsb` or `kTrdotp` gate: every party's `setWireMasks` succeeds, the last one's
    -- with the message it is sent; then the parties, numbered from 1, share under the key the mask of
    -- every wire and what each gate needs of products of masks, the trusted party knows the masks, and
    -- the party that gives an input knows that input's mask.
    pub set_wire_masks-IsPrepared :
        OrderedLevels n NoWire levels
        → AllLevels Supported levels
        → (ps : List (Preparing R G)) × Ran nP 1
            (set_wire_masks_tp randomize random_byte pid_of pis self n levels).1
            pis
            ps
          × IsPrepared nP t0.dealer.key d_end t_end ps
    unfolding set_wire_masks_tp tp_role
    set_wire_masks-IsPrepared ordered supported =
        let (ready, done) =
          gates-Ready randomize nP n pid_of whole t0.dealer.key d_end NoWire (flat levels) t0 ps0
            start-Ready (OrderedLevels-Written n NoWire levels ordered)
            (AllLevels-flat Supported levels supported)
            (
              no_vectors,
              record {
                sh = append-nil _ ∙ ap (λ z. z.dealer.rand_sh) (sym same_end);
                sec = append-nil _ ∙ ap (λ z. z.dealer.rand_sh_sec) (sym same_end);
                party = append-nil _ ∙ ap (λ z. z.rand_sh_party) (sym same_end);
              },
            )
            (λ w h. ap (λ z. sec_of (tp_role randomize) z w) same_end) in
        let end = done (λ p. p) (λ w h p. refl) (λ p. refl) in
        let ps = map (prepare_levels (party_role randomize nP) pid_of levels) ps0 in
        let same : ps ≡ map (prepare_gates (party_role randomize nP) pid_of (flat levels)) ps0 =
          map-same _ _ ps0 (prepare_levels-flat (party_role randomize nP) pid_of levels) in
        let fused : map party_of ps
            ≡ map (λ p. party_of (prepare_gates (party_role randomize nP) pid_of (flat levels) p))
                ps0 =
          ap (map party_of) same ∙ map-map party_of _ ps0 in
        let counted = Synced-Numbered nP 1 _ _ _ _ ready.joint.synced in
        let flat_wires : (w : ℕ) → AfterLevels NoWire levels w → AfterLevel NoWire (flat levels) w =
          λ w h. subst (λ D. D w) (AfterLevels-flat NoWire levels) h in
        (
          ps,
          start_parties-Ran nP 1 _ whole pis (recv_masks-send_masks whole no_vectors),
          record {
            numbered = subst (λ qs. Numbered 1 (map party_of qs)) (sym same) counted.0;
            count =
                ap (λ qs. length (map party_of qs)) same ∙ counted.1 ∙ sym ready.joint.dealt.count;
            gates = flat-AllLevels (Prepared (map party_of ps) t0.dealer.key d_end) levels (
                subst (λ qs. AllGates (Prepared qs t0.dealer.key d_end) (flat levels)) (sym fused)
                  end.prepared);
            masks = λ w h.
                entries-Shared ps t0.dealer.key (λ p. mask_at p w) (d_end w)
                  (subst (λ qs. IsSharing (map (λ p. mask (entry p w)) qs) t0.dealer.key (d_end w))
                    (sym same) (ready.shared w (flat_wires w h)));
            tp = λ w h. IsTp-secret nP (tpmask_at t_end.preproc w) (d_end w) (
                subst (λ z. IsTp nP (tpmask_at z.preproc w) (d_end w)) (sym same_end)
                  (ready.tp w (flat_wires w h)));
            inputs =
                flat-AllLevels (λ g. Every (λ q. KnowsInput pid_of d_end g q q.id) ps) levels
                  (subst
                    (λ qs.
                      AllGates (λ g. Every (λ q. KnowsInput pid_of d_end g q q.id) qs)
                        (flat levels))
                    (sym same) end.inputs);
          },
        )
