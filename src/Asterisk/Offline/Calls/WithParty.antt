-- ===== src/Asterisk/Offline/Calls/WithParty.antt =====
-- `randomShareWithParty` keeps the trusted party and the parties in step.
use qysnc_submission.Common.{
  ℕ, ◌≡◌, refl, sym, ◌∙◌, ap, ap₂, subst, ◌==◌, if◌then◌else◌, Bool-cases, true, inl, inr, List, [],
  ◌∷◌, ◌++◌, append_assoc, map, arith,
}
use qysnc_submission.Ring.{CommRing, ◌⊗◌, ◌⊖◌}
use qysnc_submission.Sharing.{TpShare, push_value, push_tag}
use qysnc_submission.Asterisk.Shared.{IsSharing}
use qysnc_submission.Asterisk.Offline.{
  Dealer, own_place, next_entry, random_share_secret, random_share_secret_party,
}
use qysnc_submission.Asterisk.Offline.Draws.{Dealt}
use qysnc_submission.Asterisk.Offline.Secret.{party_secret_shares, random_share_secret-IsSharing}
use qysnc_submission.Asterisk.Offline.Role.{
  Tp, Vectors, Preparing, with_party_loop, draw_secret, random_share_with_party,
  random_share_with_party_party, party_share_with_party,
}
use qysnc_submission.Asterisk.Offline.Sync.{
  left_after, append_cancel, IsTp, Every, advance, advance-advance, Extends, Kept, Synced,
  Synced-map, Joint, moved-Dealt, next-Joint, rest_eq,
}
use qysnc_submission.Asterisk.Offline.Calls.Secret.{
  twice_but_last, secret_loop-advance, random_share_secret-IsTp,
}
use qysnc_submission.Asterisk.Offline.Calls.Owner.{
  once_at, with_party_loop-eq-secret_loop, draw_secret-Drawn, owner_knows,
}

module _ {ℓ κ} {R : Type ℓ} {G : Type κ} ⦃r : CommRing R⦄ (randomize : G → R × G) (nP : ℕ)
    (whole : Vectors R) (dealer : ℕ) (t : Tp R G) where
  abbrev call : (TpShare R × R) × Tp R G
  call = random_share_with_party randomize dealer t

  abbrev sec : R
  sec = (draw_secret randomize dealer t).0

  -- The trusted party's generators after the draw of the secret.
  abbrev ready : Dealer R G
  ready = record t.dealer { pis = advance (once_at randomize dealer) 1 t.dealer.pis }

  abbrev step : ℕ → G → G
  step pid g = twice_but_last randomize nP pid (once_at randomize dealer pid g)

  ready-Dealt : Dealt t.dealer nP → Dealt ready nP
  ready-Dealt h = moved-Dealt t.dealer ready nP (once_at randomize dealer) h refl refl refl

  -- The call is `randomShareSecret` of the drawn secret, but for the vector that it appends to.
  record IsSecretCall : Type (ℓ ⊔ κ) where
    share : call.0.0 ≡ (random_share_secret randomize ready sec).0
    dealer_eq :
        call.1.dealer ≡ record t.dealer { pis = (random_share_secret randomize ready sec).1.pis }
    sent :
        (valn tagn : R) × (call.1.rand_sh_party ≡ t.rand_sh_party ++ (valn ∷ tagn ∷ []))
        × ((random_share_secret randomize ready sec).1.rand_sh_sec
            ≡ t.dealer.rand_sh_sec ++ (valn ∷ tagn ∷ []))

  call-IsSecretCall : IsSecretCall
  unfolding random_share_with_party random_share_secret push_tag push_value
  call-IsSecretCall =
      let d = draw_secret-Drawn randomize dealer t in
      let pis : (draw_secret randomize dealer t).1.dealer.pis ≡ ready.pis =
        ap (λ z. z.pis) d.dealer_eq in
      let loop =
        ap (λ gs. with_party_loop randomize gs t.dealer.key_shs (own_place t.dealer) r.zero r.zero)
          pis
        ∙ with_party_loop-eq-secret_loop randomize ready.pis t.dealer.key_shs (own_place t.dealer)
            r.zero r.zero in
      record {
        share = ap (λ z. push_tag (push_value z.1 (sec ⊖ z.2)) (t.dealer.key ⊗ sec ⊖ z.3)) loop;
        dealer_eq = ap₂ {A = Dealer R G} (λ x z. record x { pis = z.0 }) d.dealer_eq loop;
        sent = (
          _,
          _,
          ap (λ z. t.rand_sh_party ++ ((sec ⊖ z.2) ∷ (t.dealer.key ⊗ sec ⊖ z.3) ∷ [])) loop,
          refl,
        );
      }

  -- The call's effect on what is sent and kept.
  record Effect (valn tagn : R) : Type (ℓ ⊔ κ) where
    key_eq : call.1.dealer.key ≡ t.dealer.key
    key_shs_eq : call.1.dealer.key_shs ≡ t.dealer.key_shs
    pis_eq : call.1.dealer.pis ≡ advance step 1 t.dealer.pis
    sh : call.1.dealer.rand_sh ≡ t.dealer.rand_sh
    sec_eq : call.1.dealer.rand_sh_sec ≡ t.dealer.rand_sh_sec
    party : call.1.rand_sh_party ≡ t.rand_sh_party ++ (valn ∷ tagn ∷ [])
    tp : IsTp nP call.0.0 sec
    shared :
        (rest : List R)
        → IsSharing
            (party_secret_shares randomize nP 1 t.dealer.key_shs ready.pis (valn ∷ tagn ∷ rest))
            t.dealer.key
            sec

  call-Effect : Dealt t.dealer nP → (valn tagn : R) × Effect valn tagn
  unfolding random_share_secret
  call-Effect h =
      let c = call-IsSecretCall in
      let (valn, tagn, here, there) = c.sent in
      let ready_h = ready-Dealt h in
      let same : (rest : List R)
          → IsSharing
              (party_secret_shares randomize nP 1 t.dealer.key_shs ready.pis (valn ∷ tagn ∷ rest))
              t.dealer.key sec =
        λ rest.
          let (valn', tagn', found, sent, shared) =
            random_share_secret-IsSharing randomize ready nP sec rest ready_h in
          let both : valn' ∷ tagn' ∷ [] ≡ valn ∷ tagn ∷ [] =
            append_cancel t.dealer.rand_sh_sec _ _ (sym sent ∙ there) in
          subst
            (λ xs.
              IsSharing (party_secret_shares randomize nP 1 t.dealer.key_shs ready.pis (xs ++ rest))
                t.dealer.key sec)
            both shared in
      (
        valn,
        tagn,
        record {
          key_eq = ap (λ z. z.key) c.dealer_eq;
          key_shs_eq = ap (λ z. z.key_shs) c.dealer_eq;
          pis_eq =
              ap (λ z. z.pis) c.dealer_eq
              ∙ secret_loop-advance randomize nP 1 ready.pis t.dealer.key_shs (own_place ready)
                  r.zero r.zero ready_h.same (omega (arith, ready_h.count))
              ∙ advance-advance (twice_but_last randomize nP) (once_at randomize dealer) 1
                  t.dealer.pis;
          sh = ap (λ z. z.rand_sh) c.dealer_eq;
          sec_eq = ap (λ z. z.rand_sh_sec) c.dealer_eq;
          party = here;
          tp =
              subst (λ x. IsTp nP x sec) (sym c.share)
                (random_share_secret-IsTp randomize ready nP sec ready_h);
          shared = same;
        },
      )

  pub with_party-key : Dealt t.dealer nP → call.1.dealer.key ≡ t.dealer.key
  with_party-key h = let (valn, tagn, eff) = call-Effect h in eff.key_eq

  pub with_party-Dealt : Dealt t.dealer nP → Dealt call.1.dealer nP
  with_party-Dealt h =
      let (valn, tagn, eff) = call-Effect h in
      moved-Dealt t.dealer call.1.dealer nP step h eff.key_eq eff.key_shs_eq eff.pis_eq

  pub with_party-Extends : Dealt t.dealer nP → Extends whole call.1 → Extends whole t
  with_party-Extends h (y, j) =
      let (valn, tagn, eff) = call-Effect h in
      (
        record y { rand_sh_party = valn ∷ tagn ∷ y.rand_sh_party },
        record {
          sh = ap (λ xs. xs ++ y.rand_sh) (sym eff.sh) ∙ j.sh;
          sec = ap (λ xs. xs ++ y.rand_sh_sec) (sym eff.sec_eq) ∙ j.sec;
          party =
              sym (append_assoc t.rand_sh_party (valn ∷ tagn ∷ []) y.rand_sh_party)
              ∙ ap (λ xs. xs ++ y.rand_sh_party) (sym eff.party)
              ∙ j.party;
        },
      )

  -- A party's part is its part of `randomShareSecret`, after the draw of the secret.
  random_share_with_party_party-secret :
      (pid : ℕ) (k : R) (g : G) (xs : List R)
      → random_share_with_party_party randomize nP pid dealer k g xs ≡ (
        (
          (random_share_secret_party randomize nP pid k (once_at randomize dealer pid g) xs).0,
          (if pid == dealer then (randomize g).0 else r.zero),
        ),
        (random_share_secret_party randomize nP pid k (once_at randomize dealer pid g) xs).1,
        (random_share_secret_party randomize nP pid k (once_at randomize dealer pid g) xs).2,
      )
  unfolding random_share_with_party_party random_share_secret_party next_entry
  random_share_with_party_party-secret pid k g xs = elim (Bool-cases (pid == nP)) [
    | inl b ↦ elim (Bool-cases (pid == dealer)) [
      | inl c ↦ rw (b, c, random_share_with_party_party, random_share_secret_party) refl
      | inr c ↦ rw (b, c, random_share_with_party_party, random_share_secret_party) refl
    ]
    | inr b ↦ elim (Bool-cases (pid == dealer)) [
      | inl c ↦ rw (b, c, random_share_with_party_party, random_share_secret_party) refl
      | inr c ↦ rw (b, c, random_share_with_party_party, random_share_secret_party) refl
    ]
  ]

  with_party-Kept :
      (pid : ℕ) (k : R) (g : G) (valn tagn : R) (y : Vectors R) (p : Preparing R G)
      → Kept nP pid k g (record y { rand_sh_party = valn ∷ tagn ∷ y.rand_sh_party }) p
      → Kept nP pid k (step pid g) y (party_share_with_party randomize nP dealer p).1
        × ((party_share_with_party randomize nP dealer p).0.0
            ≡ (random_share_secret_party randomize nP pid k
                (once_at randomize dealer pid g)
                (valn ∷ tagn ∷ y.rand_sh_party)).0)
  unfolding random_share_secret_party next_entry
  with_party-Kept pid k g valn tagn y p h =
      let call_eq : random_share_with_party_party randomize nP p.id dealer p.key_sh p.p0
            p.vectors.rand_sh_party
          ≡ random_share_with_party_party randomize nP pid dealer k g p.vectors.rand_sh_party =
        rw (h.id, h.key, h.p0) refl in
      let is_secret =
        call_eq ∙ random_share_with_party_party-secret pid k g p.vectors.rand_sh_party in
      elim (Bool-cases (pid == nP)) [
        | inl b ↦
            let e : pid ≡ nP = ground arith in
            (
              record {
                id = h.id;
                key = h.key;
                p0 = ap (λ z. z.1) is_secret ∙ rw (b, random_share_secret_party) refl;
                vectors = λ _.
                    ap (λ z. record p.vectors { rand_sh_party = z.2 }) is_secret
                    ∙ rw (b, h.vectors e, random_share_secret_party) refl;
              },
              ap (λ z. z.0.0) is_secret ∙ rw (b, h.vectors e, random_share_secret_party) refl,
            )
        | inr b ↦ (
          record {
            id = h.id;
            key = h.key;
            p0 = ap (λ z. z.1) is_secret ∙ rw (b, random_share_secret_party) refl;
            vectors = λ e. absurd (ground arith);
          },
          ap (λ z. z.0.0) is_secret ∙ rw (b, random_share_secret_party) refl,
        )
      ]

  pub with_party-Joint :
      (ps : List (Preparing R G))
      → Joint nP whole t ps
      → Extends whole call.1
      → IsTp nP call.0.0 sec
        × IsSharing
            (map (λ p. (party_share_with_party randomize nP dealer p).0.0) ps)
            t.dealer.key
            sec
        × Joint nP whole call.1 (map (λ p. (party_share_with_party randomize nP dealer p).1) ps)
        × Every
            (λ p.
              (dealer == p.id) ≡ true → (party_share_with_party randomize nP dealer p).0.1 ≡ sec)
            ps
  with_party-Joint ps h (y, j) =
      let (valn, tagn, eff) = call-Effect h.dealt in
      let rest : h.rest ≡ record y { rand_sh_party = valn ∷ tagn ∷ y.rand_sh_party } =
        rest_eq h.rest y.rand_sh y.rand_sh_sec (valn ∷ tagn ∷ y.rand_sh_party)
          (append_cancel t.dealer.rand_sh h.rest.rand_sh y.rand_sh
            (h.joined.sh ∙ sym j.sh ∙ ap (λ xs. xs ++ y.rand_sh) eff.sh))
          (append_cancel t.dealer.rand_sh_sec h.rest.rand_sh_sec y.rand_sh_sec
            (h.joined.sec ∙ sym j.sec ∙ ap (λ xs. xs ++ y.rand_sh_sec) eff.sec_eq))
          (left_after t.rand_sh_party (valn ∷ tagn ∷ []) h.rest.rand_sh_party y.rand_sh_party
            whole.rand_sh_party h.joined.party
            (ap (λ xs. xs ++ y.rand_sh_party) (sym eff.party) ∙ j.party)) in
      let synced = subst (λ z. Synced nP 1 t.dealer.key_shs t.dealer.pis z ps) rest h.synced in
      (
        eff.tp,
        subst (λ xs. IsSharing xs t.dealer.key sec)
            (sym (
              Synced-map nP (λ p. (party_share_with_party randomize nP dealer p).0.0)
                (λ pid k g.
                  (random_share_secret_party randomize nP pid k (once_at randomize dealer pid g)
                    (valn ∷ tagn ∷ y.rand_sh_party)).0)
                (λ pid ks gs.
                  party_secret_shares randomize nP pid ks
                    (advance (once_at randomize dealer) pid gs) (valn ∷ tagn ∷ y.rand_sh_party))
                _ (λ pid. refl) (λ pid k ks g gs. refl)
                (λ pid k g p kept. (with_party-Kept pid k g valn tagn y p kept).1) 1
                t.dealer.key_shs t.dealer.pis ps synced))
            (eff.shared y.rand_sh_party),
        next-Joint nP whole t call.1 ps step (λ p. (party_share_with_party randomize nP dealer p).1)
            _ y h rest eff.key_eq eff.key_shs_eq eff.pis_eq j
            (λ pid k g p kept. (with_party-Kept pid k g valn tagn y p kept).0),
        owner_knows randomize nP dealer t h.rest ps h.synced,
      )
