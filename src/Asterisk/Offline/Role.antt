-- ===== src/Asterisk/Offline/Role.antt =====
-- code/src/asterisk/offline_evaluator.cpp: `randomShareWithParty`, and what `setWireMasksParty` does
-- differently as the trusted party and as a party: a `Role` for each.
use qysnc_submission.Common.{
  ℕ, zero, suc, ◌-◌, ◌==◌, if◌then◌else◌, none, some, List, [], ◌∷◌, ◌++◌, set,
}
use qysnc_submission.Ring.{CommRing, ◌⊕◌, ◌⊗◌, ◌⊖◌}
use qysnc_submission.Sharing.{
  AuthAddShare, TpShare, push_value, push_tag, push_key_sh, secret, plus, minus, times, tp_plus,
  tp_minus, tp_times,
}
use qysnc_submission.Asterisk.{PreprocGate}
use qysnc_submission.Asterisk.Offline.{
  Dealer, own_place, next_entry, random_share, random_share_party, random_share_secret,
  random_share_secret_party,
}

-- The trusted party while it prepares the gates: its keys and generators, the generator that it
-- shares with nobody, the vector of `randomShareWithParty` for the last party, and the gates.
pub record Tp {ℓ κ} (R : Type ℓ) (G : Type κ) : Type (ℓ ⊔ κ) where
  pub dealer : Dealer R G
  pub self : G
  pub rand_sh_party : List R
  pub preproc : List (PreprocGate R (TpShare R))

-- The vectors of the last party, as far as it has not read them.
pub record Vectors {ℓ} (R : Type ℓ) : Type ℓ where
  pub rand_sh : List R
  pub rand_sh_sec : List R
  pub rand_sh_party : List R

-- A party while it prepares the gates.
pub record Preparing {ℓ κ} (R : Type ℓ) (G : Type κ) : Type (ℓ ⊔ κ) where
  pub id : ℕ
  pub key_sh : R
  pub p0 : G
  pub vectors : Vectors R
  pub preproc : List (PreprocGate R (AuthAddShare R))

-- What the gates need of whoever prepares them: `S` is its state, `X` what it keeps of a sharing.
-- `secret_of` is what it knows of a sharing's value, which for a party is nothing: the source does
-- not set the products there, and `randomShareSecret` does not read them.
pub record Role {ℓ σ} (R : Type ℓ) (X : Type ℓ) (S : Type σ) : Type (ℓ ⊔ σ) where
  pub share : S → X × S
  pub share_secret : R → S → X × S
  pub share_with_party : ℕ → S → (X × R) × S
  pub secret_of : X → R
  pub sum : X → X → X
  pub difference : X → X → X
  pub multiple : X → R → X
  pub no_mask : X
  pub preproc : S → List (PreprocGate R X)
  pub put : ℕ → PreprocGate R X → S → S

module _ {ℓ κ} {R : Type ℓ} {G : Type κ} ⦃r : CommRing R⦄ (randomize : G → R × G) where
  -- A draw from the generator shared with the party at place `i`.
  unfoldable pub draw_at : ℕ → List G → R × List G
  draw_at i [] = (r.zero, [])
  draw_at zero (g ∷ pis) = let (s, g') = randomize g in (s, g' ∷ pis)
  draw_at (suc i) (g ∷ pis) = let (s, pis') = draw_at i pis in (s, g ∷ pis')

  -- The loop of `randomShareWithParty`, over all parties but the last.
  unfoldable pub with_party_loop : List G → List R → TpShare R → R → R → List G × TpShare R × R × R
  unfolding push_value push_tag push_key_sh
  with_party_loop (g ∷ []) (k ∷ ks) share valn tagn = (g ∷ [], push_key_sh share k, valn, tagn)
  with_party_loop (g ∷ h ∷ pis) (k ∷ ks) share valn tagn =
      let (val, g1) = randomize g in
      let (tag, g2) = randomize g1 in
      let (pis', share', valn', tagn') =
        with_party_loop (h ∷ pis) ks (push_tag (push_value (push_key_sh share k) val) tag)
          (valn ⊕ val) (tagn ⊕ tag) in
      (g2 ∷ pis', share', valn', tagn')
  with_party_loop pis ks share valn tagn = (pis, share, valn, tagn)

  -- The secret of `randomShareWithParty`, which the trusted party draws with the party `dealer`, or
  -- alone.
  unfoldable pub draw_secret : ℕ → Tp R G → R × Tp R G
  unfolding draw_at
  draw_secret dealer t =
      if dealer == 0
      then (let (s, self') = randomize t.self in (s, record t { self = self' }))
      else (let (s, pis') = draw_at (dealer - 1) t.dealer.pis in
          (s, record t { dealer = record t.dealer { pis = pis' } }))

  -- `randomShareWithParty` of the trusted party.
  unfoldable pub random_share_with_party : ℕ → Tp R G → (TpShare R × R) × Tp R G
  unfolding draw_secret with_party_loop own_place push_tag push_value
  random_share_with_party dealer t =
      let (sec, t1) = draw_secret dealer t in
      let (pis', share, valn, tagn) =
        with_party_loop t1.dealer.pis t.dealer.key_shs (own_place t.dealer) r.zero r.zero in
      let valn' = sec ⊖ valn in
      let tagn' = t.dealer.key ⊗ sec ⊖ tagn in
      (
        (push_tag (push_value share valn') tagn', sec),
        record t1 {
          dealer = record t1.dealer { pis = pis' };
          rand_sh_party = t.rand_sh_party ++ (valn' ∷ tagn' ∷ []);
        },
      )

  -- `randomShareWithParty` of the party `pid`: its share, the secret if it is the dealer, its
  -- generator and the rest of the vector.
  unfoldable pub random_share_with_party_party :
      ℕ → ℕ → ℕ → R → G → List R → (AuthAddShare R × R) × G × List R
  unfolding next_entry
  random_share_with_party_party nP pid dealer key p0 rand_sh_party =
      let drawn : R × G = if pid == dealer then randomize p0 else (r.zero, p0) in
      let sec = drawn.0 in
      let g = drawn.1 in
      if pid == nP
      then (let (valn, rest) = next_entry rand_sh_party in
          let (tagn, rest') = next_entry rest in
          ((record { key_sh = key; value = valn; tag = tagn }, sec), g, rest'))
      else (let (val, g1) = randomize g in
          let (tag, g2) = randomize g1 in
          ((record { key_sh = key; value = val; tag = tag }, sec), g2, rand_sh_party))

  abbrev pub tp_share : Tp R G → TpShare R × Tp R G
  tp_share t =
      let (x, dealer') = random_share randomize t.dealer in (x, record t { dealer = dealer' })

  abbrev pub tp_share_secret : R → Tp R G → TpShare R × Tp R G
  tp_share_secret sec t =
      let (x, dealer') = random_share_secret randomize t.dealer sec in
      (x, record t { dealer = dealer' })

  -- The trusted party.
  unfoldable pub tp_role : Role R (TpShare R) (Tp R G)
  unfolding secret
  tp_role = record {
    share = tp_share;
    share_secret = tp_share_secret;
    share_with_party = random_share_with_party;
    secret_of = λ x. elim (secret x) [ none ↦ r.zero | some s ↦ s ];
    sum = tp_plus;
    difference = tp_minus;
    multiple = tp_times;
    no_mask = record { key = r.zero; key_shs = []; values = []; tags = [] };
    preproc = λ t. t.preproc;
    put = λ o pregate t. record t { preproc = set t.preproc o pregate };
  }

  abbrev pub party_share : ℕ → Preparing R G → AuthAddShare R × Preparing R G
  party_share nP p =
      let call = random_share_party randomize nP p.id p.key_sh p.p0 p.vectors.rand_sh in
      (call.0, record p { p0 = call.1; vectors = record p.vectors { rand_sh = call.2 } })

  abbrev pub party_share_secret : ℕ → Preparing R G → AuthAddShare R × Preparing R G
  party_share_secret nP p =
      let call = random_share_secret_party randomize nP p.id p.key_sh p.p0 p.vectors.rand_sh_sec in
      (call.0, record p { p0 = call.1; vectors = record p.vectors { rand_sh_sec = call.2 } })

  abbrev pub party_share_with_party : ℕ → ℕ → Preparing R G → (AuthAddShare R × R) × Preparing R G
  party_share_with_party nP dealer p =
      let call =
        random_share_with_party_party nP p.id dealer p.key_sh p.p0 p.vectors.rand_sh_party in
      (call.0, record p { p0 = call.1; vectors = record p.vectors { rand_sh_party = call.2 } })

  -- A party, of `nP`.
  unfoldable pub party_role : ℕ → Role R (AuthAddShare R) (Preparing R G)
  party_role nP = record {
    share = party_share nP;
    share_secret = λ sec. party_share_secret nP;
    share_with_party = party_share_with_party nP;
    secret_of = λ x. r.zero;
    sum = plus;
    difference = minus;
    multiple = times;
    no_mask = record { key_sh = r.zero; value = r.zero; tag = r.zero };
    preproc = λ p. p.preproc;
    put = λ o pregate p. record p { preproc = set p.preproc o pregate };
  }
