-- ===== src/Asterisk/Offline/WireMasks.antt =====
-- code/src/asterisk/offline_evaluator.cpp: `setWireMasks`, as the trusted party and as a party run it,
-- with the key setup at the start of `setWireMasksParty`, and `getOutputMasks`.
pub mod Start
pub mod Order
pub mod Outcome
use qysnc_submission.Common.{
  ℕ, zero, suc, ◌%◌, ◌==◌, if◌then◌else◌, Bool, false, Option, none, some, List, [], ◌∷◌, map,
  replicate,
}
use qysnc_submission.Ring.{CommRing}
use qysnc_submission.Bits.Ring.{bool_ring}
use qysnc_submission.Sharing.{AuthAddShare, TpShare, secret}
use qysnc_submission.Circuit.{Gate}
use qysnc_submission.Asterisk.{PreprocGate, preproc_gate}
use qysnc_submission.Asterisk.Online.Run.{tpmask_at}
use qysnc_submission.Asterisk.Offline.{Dealer, key_loop, key_gen}
use qysnc_submission.Asterisk.Offline.Role.{Role, Tp, Vectors, Preparing, tp_role, party_role}
use qysnc_submission.Asterisk.Offline.Gates.{prepare_levels}
use qysnc_submission.Asterisk.Offline.Transfer.{Message, send_masks, recv_masks}

-- Vectors that hold nothing.
abbrev pub no_vectors {ℓ} : {A : Type ℓ} → Vectors A
no_vectors = record { rand_sh = []; rand_sh_sec = []; rand_sh_party = [] }

-- `random_byte` is `random_data` of one byte.
module _ {κ} {G : Type κ} (random_byte : G → ℕ × G) where
  -- A bit of the key for bits.
  abbrev pub random_bit : G → Bool × G
  random_bit g = let (tmp, g') = random_byte g in (tmp % 2 == 1, g')

module _ {ℓ κ} {R : Type ℓ} {G : Type κ} ⦃r : CommRing R⦄ (randomize : G → R × G)
    (random_byte : G → ℕ × G) where
  -- The trusted party after the key setup: `bkey` comes second.
  unfoldable pub start_tp : List G → G → ℕ → Tp R G × Bool
  unfolding key_gen key_loop tp_role
  start_tp pis self num_gates =
      let dealer = key_gen randomize pis in
      let (bkey, bkey_sh, pis') = key_loop (random_bit random_byte) dealer.pis false [] [] in
      (
        record {
          dealer = record dealer { pis = pis' };
          self = self;
          rand_sh_party = [];
          preproc = replicate num_gates (preproc_gate (tp_role randomize).no_mask);
        },
        bkey,
      )

  -- A party after it, with the vectors it was sent.
  unfoldable pub start_party : ℕ → G → ℕ → Vectors R → Preparing R G × Bool
  unfolding party_role
  start_party id p0 num_gates vectors =
      let (key, g1) = randomize p0 in
      let (bkey, g2) = random_bit random_byte g1 in
      (
        record {
          id = id;
          key_sh = key;
          p0 = g2;
          vectors = vectors;
          preproc = replicate num_gates (preproc_gate (party_role randomize 0).no_mask);
        },
        bkey,
      )

module _ {ℓ κ} {R : Type ℓ} {G : Type κ} ⦃r : CommRing R⦄ (randomize : G → R × G)
    (random_byte : G → ℕ × G) (pid_of : ℕ → ℕ) where
  -- `setWireMasks` of the trusted party: its gates, and what it sends the last party. No gate that
  -- is prepared here puts anything into the vectors of bits.
  unfoldable pub set_wire_masks_tp : List G → G → ℕ → List (List (Gate R)) → Tp R G × Message R
  unfolding start_tp prepare_levels
  set_wire_masks_tp pis self num_gates levels =
      let t =
        prepare_levels (tp_role randomize) pid_of levels
          (start_tp randomize random_byte pis self num_gates).0 in
      let vectors : Vectors R = record {
        rand_sh = t.dealer.rand_sh;
        rand_sh_sec = t.dealer.rand_sh_sec;
        rand_sh_party = t.rand_sh_party;
      } in
      (t, send_masks vectors no_vectors)

  -- `setWireMasks` of the party `id` of `nP`.
  unfoldable pub set_wire_masks_party :
      ℕ → ℕ → G → ℕ → List (List (Gate R)) → Message R → Option (Preparing R G)
  unfolding start_party prepare_levels
  set_wire_masks_party nP id p0 num_gates levels message =
      if id == nP
      then elim (recv_masks message) [
        | none ↦ none
        | some (vectors, bits) ↦ some (
            prepare_levels (party_role randomize nP) pid_of levels
              (start_party randomize random_byte id p0 num_gates vectors).0)
      ]
      else some (
          prepare_levels (party_role randomize nP) pid_of levels
            (start_party randomize random_byte id p0 num_gates no_vectors).0)

module _ {ℓ} {R : Type ℓ} ⦃r : CommRing R⦄ where
  -- `getOutputMasks`: the trusted party's masks of the outputs; a party gets zeros.
  pub get_output_masks : ℕ → List (PreprocGate R (TpShare R)) → List ℕ → List R
  unfolding secret
  get_output_masks pid preproc outputs =
      if pid == 0
      then map (λ w. elim (secret (tpmask_at preproc w)) [ none ↦ r.zero | some s ↦ s ]) outputs
      else map (λ w. r.zero) outputs
