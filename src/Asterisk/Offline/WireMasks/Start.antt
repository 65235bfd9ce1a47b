-- ===== src/Asterisk/Offline/WireMasks/Start.antt =====
-- After the key setup the trusted party and the parties are in step.
use qysnc_submission.Common.{
  ℕ, suc, ◌≤◌, ◌≡◌, refl, sym, ◌∙◌, ap, subst, ◌==◌, if◌then◌else◌, true, false, List, [], ◌∷◌,
  ◌++◌, append_assoc, append-nil, length, arith,
}
use qysnc_submission.Ring.{CommRing}
use qysnc_submission.Bits.Ring.{bool_ring}
use qysnc_submission.Asterisk.Offline.{key_loop, key_gen}
use qysnc_submission.Asterisk.Offline.Draws.{Dealt, key_gen-Dealt, key_loop-total, drawn}
use qysnc_submission.Asterisk.Offline.Role.{Vectors, Preparing}
use qysnc_submission.Asterisk.Offline.Sync.{advance, advance-advance, moved-Dealt, Synced, Joint}
use qysnc_submission.Asterisk.Offline.WireMasks.{no_vectors, random_bit, start_tp, start_party}

module _ {ℓ κ} {R : Type ℓ} {G : Type κ} ⦃r : CommRing R⦄ (randomize : G → R × G) where
  -- One draw.
  abbrev once : ℕ → G → G
  once pid g = (randomize g).1

  key_loop-advance :
      (pid : ℕ) (pis : List G) (key : R) (ks : List R) (used : List G)
      → (key_loop randomize pis key ks used).2 ≡ used ++ advance once pid pis
  unfolding key_loop
  key_loop-advance pid [] key ks used = sym (append-nil used)
  key_loop-advance pid (g ∷ pis) key ks used =
      key_loop-advance (suc pid) pis _ _ (used ++ ((randomize g).1 ∷ []))
      ∙ append_assoc used ((randomize g).1 ∷ []) (advance once (suc pid) pis)

module _ {ℓ κ} {R : Type ℓ} {G : Type κ} ⦃r : CommRing R⦄ (randomize : G → R × G)
    (random_byte : G → ℕ × G) (num_gates nP : ℕ) (whole : Vectors R) where
  -- The parties from `pid` on; the last has the vectors.
  abbrev pub start_parties : ℕ → List G → List (Preparing R G)
  start_parties pid [] = []
  start_parties pid (g ∷ pis) =
      (start_party randomize random_byte pid g num_gates
        (if pid == nP then whole else no_vectors)).0
      ∷ start_parties (suc pid) pis

  abbrev both : ℕ → G → G
  both pid g = (random_bit random_byte (randomize g).1).1

  start_parties-Synced :
      (pid : ℕ) (pis : List G)
      → Synced nP pid (drawn randomize pis) (advance both pid pis) whole (start_parties pid pis)
  unfolding Synced start_party
  start_parties-Synced pid [] = record { lower = tt }
  start_parties-Synced pid (g ∷ pis) = (
    record {
      id = refl;
      key = refl;
      p0 = refl;
      vectors = λ e.
          let b : (pid == nP) ≡ true = ground arith in ap (λ c. if c then whole else no_vectors) b;
    },
    start_parties-Synced (suc pid) pis,
  )

  pub start-Joint :
      (pis : List G) (self : G)
      → 1 ≤ length pis
      → length pis ≡ nP
      → Joint nP whole (start_tp randomize random_byte pis self num_gates).0 (start_parties 1 pis)
  unfolding start_tp key_gen
  start-Joint pis self some_party count =
      let t = (start_tp randomize random_byte pis self num_gates).0 in
      let keys = key_loop-total randomize pis r.zero [] [] in
      let bits : t.dealer.pis
          ≡ advance (once (random_bit random_byte)) 1 (key_gen randomize pis).pis =
        key_loop-advance (random_bit random_byte) 1 (key_gen randomize pis).pis false [] [] in
      let pis_eq : t.dealer.pis ≡ advance both 1 pis =
        bits
        ∙ ap (advance (once (random_bit random_byte)) 1)
            (key_loop-advance randomize 1 pis r.zero [] [])
        ∙ advance-advance (once (random_bit random_byte)) (once randomize) 1 pis in
      let dealt : Dealt t.dealer nP =
        moved-Dealt (key_gen randomize pis) t.dealer nP (once (random_bit random_byte))
          (subst (Dealt (key_gen randomize pis)) count (key_gen-Dealt randomize pis some_party))
          refl refl bits in
      record {
        dealt = dealt;
        rest = whole;
        joined = record { sh = refl; sec = refl; party = refl };
        synced =
            subst (λ gs. Synced nP 1 t.dealer.key_shs gs whole (start_parties 1 pis)) (sym pis_eq)
              (subst (λ ks. Synced nP 1 ks (advance both 1 pis) whole (start_parties 1 pis))
                (sym keys.1) (start_parties-Synced 1 pis));
      }
