-- ===== src/Asterisk/Offline.antt =====
-- code/src/asterisk/offline_evaluator.cpp: `keyGen`, `randomShare` and `randomShareSecret`, each as the
-- trusted party runs it and as a party runs it. The trusted party has a generator with each party; it
-- sends the last party what that one cannot draw. Its own additive share, which is zero throughout, is
-- left out.
pub mod Draws
pub mod Share
pub mod Secret
pub mod Role
pub mod Gates
pub mod Sync
pub mod Calls
pub mod Keeps
pub mod Together
pub mod Place
pub mod Ready
pub mod Linear
pub mod Multiply
pub mod Prepare
pub mod Sequence
pub mod Phase
pub mod Transfer
pub mod WireMasks
mod Tests
use qysnc_submission.Common.{
  ℕ, zero, suc, ◌==◌, if◌then◌else◌, Option, none, some, List, [], ◌∷◌, ◌++◌,
}
use qysnc_submission.Ring.{CommRing, ◌⊕◌, ◌⊗◌, ◌⊖◌}
use qysnc_submission.Sharing.{AuthAddShare, TpShare, push_value, push_tag, push_key_sh, secret}

-- What the trusted party works with: the key, its shares (its own, which is 0, apart from those of
-- the parties), the generators that it shares with the parties, and the vectors that go to the last
-- party.
pub record Dealer {ℓ κ} (R : Type ℓ) (G : Type κ) : Type (ℓ ⊔ κ) where
  pub key : R
  pub own_key_sh : R
  pub key_shs : List R
  pub pis : List G
  pub rand_sh : List R
  pub rand_sh_sec : List R

module _ {ℓ κ} {R : Type ℓ} {G : Type κ} ⦃r : CommRing R⦄ where
  -- What `tpShare` holds before the loop over the parties.
  pub own_place : Dealer R G → TpShare R
  unfolding push_value push_tag push_key_sh
  own_place t =
      push_key_sh
        (push_tag (push_value (record { key = t.key; key_shs = []; values = []; tags = [] }) r.zero)
          r.zero)
        t.own_key_sh

module _ {ℓ} {R : Type ℓ} ⦃r : CommRing R⦄ where
  -- The next entry of a vector from the trusted party, which keeps what is not yet read.
  pub next_entry : List R → R × List R
  next_entry [] = (r.zero, [])
  next_entry (x ∷ xs) = (x, xs)

-- `G` is a generator of emp-tool, `randomize` is `randomizeZZp`.
module _ {ℓ κ} {R : Type ℓ} {G : Type κ} ⦃r : CommRing R⦄ (randomize : G → R × G) where
  -- The loop of `keyGen` of the trusted party.
  unfoldable pub key_loop : List G → R → List R → List G → R × List R × List G
  key_loop [] key key_shs used = (key, key_shs, used)
  key_loop (g ∷ pis) key key_shs used =
      let (k, g') = randomize g in key_loop pis (key ⊕ k) (key_shs ++ (k ∷ [])) (used ++ (g' ∷ []))

  pub key_gen : List G → Dealer R G
  unfolding key_loop
  key_gen pis =
      let (key, key_shs, used) = key_loop pis r.zero [] [] in
      record {
        key = key;
        own_key_sh = r.zero;
        key_shs = key_shs;
        pis = used;
        rand_sh = [];
        rand_sh_sec = [];
      }

  -- The loop of `randomShare`: the last party's tag is drawn but not used.
  pub share_loop : List G → List R → TpShare R → R → List G × TpShare R × R
  unfolding push_value push_tag push_key_sh
  share_loop (g ∷ []) (k ∷ ks) share tagn =
      let (val, g1) = randomize g in
      let (tag, g2) = randomize g1 in (g2 ∷ [], push_key_sh (push_value share val) k, tagn)
  share_loop (g ∷ h ∷ pis) (k ∷ ks) share tagn =
      let (val, g1) = randomize g in
      let (tag, g2) = randomize g1 in
      let (pis', share', tagn') =
        share_loop (h ∷ pis) ks (push_tag (push_key_sh (push_value share val) k) tag)
          (tagn ⊕ tag) in
      (g2 ∷ pis', share', tagn')
  share_loop pis ks share tagn = (pis, share, tagn)

  -- `randomShare` of the trusted party.
  pub random_share : Dealer R G → TpShare R × Dealer R G
  unfolding own_place share_loop secret
  random_share t =
      let (pis', share, tagn) = share_loop t.pis t.key_shs (own_place t) r.zero in
      let sec : R = elim (secret share) [ none ↦ r.zero | some s ↦ s ] in
      let tagn' = t.key ⊗ sec ⊖ tagn in
      (push_tag share tagn', record t { pis = pis'; rand_sh = t.rand_sh ++ (tagn' ∷ []) })

  -- `randomShare` of the party `pid`, with its key share and its generator.
  pub random_share_party : ℕ → ℕ → R → G → List R → AuthAddShare R × G × List R
  unfolding next_entry
  random_share_party nP pid key p0 rand_sh =
      let (val, g1) = randomize p0 in
      let (tag, g2) = randomize g1 in
      let (tagn, rest) = next_entry rand_sh in
      if pid == nP
      then (record { key_sh = key; value = val; tag = tagn }, g2, rest)
      else (record { key_sh = key; value = val; tag = tag }, g2, rand_sh)

  -- The loop of `randomShareSecret`, over all parties but the last.
  pub secret_loop : List G → List R → TpShare R → R → R → List G × TpShare R × R × R
  unfolding push_value push_tag push_key_sh
  secret_loop (g ∷ []) (k ∷ ks) share valn tagn = (g ∷ [], push_key_sh share k, valn, tagn)
  secret_loop (g ∷ h ∷ pis) (k ∷ ks) share valn tagn =
      let (val, g1) = randomize g in
      let (tag, g2) = randomize g1 in
      let (pis', share', valn', tagn') =
        secret_loop (h ∷ pis) ks (push_key_sh (push_tag (push_value share val) tag) k) (valn ⊕ val)
          (tagn ⊕ tag) in
      (g2 ∷ pis', share', valn', tagn')
  secret_loop pis ks share valn tagn = (pis, share, valn, tagn)

  -- `randomShareSecret` of the trusted party.
  pub random_share_secret : Dealer R G → R → TpShare R × Dealer R G
  unfolding own_place secret_loop
  random_share_secret t sec =
      let (pis', share, valn, tagn) = secret_loop t.pis t.key_shs (own_place t) r.zero r.zero in
      let valn' = sec ⊖ valn in
      let tagn' = t.key ⊗ sec ⊖ tagn in
      (
        push_tag (push_value share valn') tagn',
        record t { pis = pis'; rand_sh_sec = t.rand_sh_sec ++ (valn' ∷ tagn' ∷ []) },
      )

  -- `randomShareSecret` of the party `pid`.
  pub random_share_secret_party : ℕ → ℕ → R → G → List R → AuthAddShare R × G × List R
  unfolding next_entry
  random_share_secret_party nP pid key p0 rand_sh_sec =
      if pid == nP
      then (let (valn, rest) = next_entry rand_sh_sec in
          let (tagn, rest') = next_entry rest in
          (record { key_sh = key; value = valn; tag = tagn }, p0, rest'))
      else (let (val, g1) = randomize p0 in
          let (tag, g2) = randomize g1 in
          (record { key_sh = key; value = val; tag = tag }, g2, rand_sh_sec))
