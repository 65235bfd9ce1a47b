-- ===== src/Asterisk/Offline/Tests.antt =====
-- The trusted party deals to two parties, and each theorem at an input.
use qysnc_submission.Common.{◌≡◌, Bool, true, false, not, some, [], ◌∷◌, ◌++◌, arith}
use qysnc_submission.Bits.Ring.{bool_ring}
use qysnc_submission.Sharing.{secret}
use qysnc_submission.Asterisk.Shared.{IsSharing}
use qysnc_submission.Asterisk.Offline.{Dealer, key_gen, random_share, random_share_secret}
use qysnc_submission.Asterisk.Offline.Draws.{key_gen-Dealt}
use qysnc_submission.Asterisk.Offline.Share.{party_shares, random_share-IsSharing}
use qysnc_submission.Asterisk.Offline.Secret.{party_secret_shares, random_share_secret-IsSharing}
use qysnc_submission.Asterisk.Offline.Role.{Vectors}
use qysnc_submission.Asterisk.Offline.Transfer.{send_masks, recv_masks, recv_masks-send_masks}

-- A generator that alternates.
abbrev alternate : Bool → Bool × Bool
alternate b = (b, not b)

abbrev dealer : Dealer Bool Bool
dealer = key_gen alternate (true ∷ false ∷ [])

random_share-IsSharing_example :
    (v last : Bool) × (secret (random_share alternate dealer).0 ≡ some v)
    × ((random_share alternate dealer).1.rand_sh ≡ dealer.rand_sh ++ (last ∷ []))
    × IsSharing (party_shares alternate 2 1 dealer.key_shs dealer.pis (last ∷ [])) dealer.key v
random_share-IsSharing_example =
    random_share-IsSharing alternate dealer 2 []
      (key_gen-Dealt alternate (true ∷ false ∷ []) (omega arith))

random_share_secret-IsSharing_example :
    (valn tagn : Bool) × (secret (random_share_secret alternate dealer true).0 ≡ some true)
    × ((random_share_secret alternate dealer true).1.rand_sh_sec
        ≡ dealer.rand_sh_sec ++ (valn ∷ tagn ∷ []))
    × IsSharing
        (party_secret_shares alternate 2 1 dealer.key_shs dealer.pis (valn ∷ tagn ∷ []))
        dealer.key
        true
random_share_secret-IsSharing_example =
    random_share_secret-IsSharing alternate dealer 2 true []
      (key_gen-Dealt alternate (true ∷ false ∷ []) (omega arith))

abbrev field_vectors : Vectors Bool
field_vectors = record {
  rand_sh = true ∷ false ∷ [];
  rand_sh_sec = true ∷ [];
  rand_sh_party = false ∷ true ∷ [];
}

abbrev bit_vectors : Vectors Bool
bit_vectors = record { rand_sh = true ∷ []; rand_sh_sec = []; rand_sh_party = false ∷ true ∷ [] }

recv_masks-send_masks_example :
    recv_masks (send_masks field_vectors bit_vectors) ≡ some (field_vectors, bit_vectors)
recv_masks-send_masks_example = recv_masks-send_masks field_vectors bit_vectors
