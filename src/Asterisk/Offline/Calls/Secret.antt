-- ===== src/Asterisk/Offline/Calls/Secret.antt =====
-- `randomShareSecret` keeps the trusted party and the parties in step.
use qysnc_submission.Common.{
  ℕ, suc, ◌+◌, ◌≤◌, ◌≡◌, refl, sym, ◌∙◌, ap, ap₂, subst, ◌==◌, ne→==, if◌then◌else◌, Bool-cases,
  true, false, inl, inr, List, [], ◌∷◌, ◌++◌, append_assoc, map, length, length-append, arith,
}
use qysnc_submission.Ring.{CommRing, ◌⊕◌, ◌⊖◌}
use qysnc_submission.Ring.Laws.{total}
use qysnc_submission.Sharing.{TpShare, push_value, push_tag}
use qysnc_submission.Asterisk.Shared.{IsSharing}
use qysnc_submission.Asterisk.Offline.{
  Dealer, own_place, next_entry, secret_loop, random_share_secret, random_share_secret_party,
}
use qysnc_submission.Asterisk.Offline.Draws.{value_of_draw, init_of, own_values, Dealt}
use qysnc_submission.Asterisk.Offline.Secret.{
  party_secret_shares, secret_loop-drawn, random_share_secret-IsSharing,
}
use qysnc_submission.Asterisk.Offline.Role.{
  Tp, Vectors, Preparing, tp_share_secret, party_share_secret,
}
use qysnc_submission.Asterisk.Offline.Sync.{
  left_after, append_cancel, IsTp, values-IsTp, advance, Extends, Kept, Synced, Synced-map, Joint,
  moved-Dealt, next-Joint, rest_eq,
}
use qysnc_submission.Asterisk.Offline.Calls.{twice}

module _ {ℓ κ} {R : Type ℓ} {G : Type κ} ⦃r : CommRing R⦄ (randomize : G → R × G) where
  abbrev pub twice_but_last : ℕ → ℕ → G → G
  twice_but_last nP pid g = if pid == nP then g else twice randomize pid g

  pub secret_loop-advance :
      (nP pid : ℕ) (pis : List G) (ks : List R) (share : TpShare R) (valn tagn : R)
      → length ks ≡ length pis
      → pid + length pis ≡ suc nP
      → (secret_loop randomize pis ks share valn tagn).0 ≡ advance (twice_but_last nP) pid pis
  unfolding secret_loop
  secret_loop-advance nP pid [] [] share valn tagn e ids = refl
  secret_loop-advance nP pid [] (k ∷ ks) share valn tagn e ids = absurd (omega arith)
  secret_loop-advance nP pid (g ∷ []) [] share valn tagn e ids = absurd (omega arith)
  secret_loop-advance nP pid (g ∷ []) (k ∷ ks) share valn tagn e ids =
      let here : (pid == nP) ≡ true = ground arith in
      ap (λ b. (if b then g else twice randomize pid g) ∷ []) (sym here)
  secret_loop-advance nP pid (g ∷ h ∷ pis) [] share valn tagn e ids = absurd (omega arith)
  secret_loop-advance nP pid (g ∷ h ∷ pis) (k ∷ ks) share valn tagn e ids =
      let here : (pid == nP) ≡ false = ne→== pid nP (λ e'. absurd (omega arith)) in
      ap₂ ◌∷◌ (ap (λ b. if b then g else twice randomize pid g) (sym here))
        (secret_loop-advance nP (suc pid) (h ∷ pis) ks _ _ _ (omega arith) (omega arith))

  length-init_of :
      (f : G → R) (pis : List G)
      → 1 ≤ length pis
      → length (init_of randomize f pis) + 1 ≡ length pis
  length-init_of f [] h = absurd (omega arith)
  length-init_of f (g ∷ []) h = refl
  length-init_of f (g ∷ h ∷ pis) le =
      let rest = length-init_of f (h ∷ pis) (omega arith) in omega (arith, rest)

  -- What the trusted party keeps of the call is a sharing of `sec`.
  pub random_share_secret-IsTp :
      (t : Dealer R G) (nP : ℕ) (sec : R)
      → Dealt t nP
      → IsTp nP (random_share_secret randomize t sec).0 sec
  unfolding random_share_secret push_tag push_value
  random_share_secret-IsTp t nP sec h =
      let loop = secret_loop-drawn randomize t.pis t.key_shs (own_place t) r.zero r.zero h.same in
      let start = init_of randomize (value_of_draw randomize) t.pis in
      let some_party : 1 ≤ length t.pis = omega (arith, h.count, h.some_party) in
      values-IsTp nP _ sec (start ++ ((sec ⊖ (r.zero ⊕ total start)) ∷ []))
        (ap₂ (λ vs x. vs ++ ((sec ⊖ x) ∷ [])) (loop.0 ∙ ap (λ vs. vs ++ start) (own_values t))
          loop.1)
        (length-append start _
          ∙ length-init_of (value_of_draw randomize) t.pis some_party
          ∙ sym h.count)
        (random_share_secret-IsSharing randomize t nP sec [] h).2

module _ {ℓ κ} {R : Type ℓ} {G : Type κ} ⦃r : CommRing R⦄ (randomize : G → R × G) (nP : ℕ)
    (whole : Vectors R) (t : Tp R G) (sec : R) where
  pub tp_share_secret-key : (tp_share_secret randomize sec t).1.dealer.key ≡ t.dealer.key
  unfolding random_share_secret
  tp_share_secret-key = refl

  pub tp_share_secret-Dealt :
      Dealt t.dealer nP → Dealt (tp_share_secret randomize sec t).1.dealer nP
  unfolding random_share_secret
  tp_share_secret-Dealt h =
      moved-Dealt t.dealer (tp_share_secret randomize sec t).1.dealer nP
        (twice_but_last randomize nP) h refl refl
        (secret_loop-advance randomize nP 1 t.dealer.pis t.dealer.key_shs (own_place t.dealer)
          r.zero r.zero h.same (omega (arith, h.count)))

  pub tp_share_secret-Extends :
      Dealt t.dealer nP → Extends whole (tp_share_secret randomize sec t).1 → Extends whole t
  unfolding random_share_secret
  tp_share_secret-Extends h (y, j) =
      let (valn, tagn, found, sent, shared) =
        random_share_secret-IsSharing randomize t.dealer nP sec [] h in
      (
        record y { rand_sh_sec = valn ∷ tagn ∷ y.rand_sh_sec },
        record {
          sh = j.sh;
          sec =
              sym (append_assoc t.dealer.rand_sh_sec (valn ∷ tagn ∷ []) y.rand_sh_sec)
              ∙ ap (λ xs. xs ++ y.rand_sh_sec) (sym sent)
              ∙ j.sec;
          party = j.party;
        },
      )

  party_share_secret-Kept :
      (pid : ℕ) (k : R) (g : G) (valn tagn : R) (y : Vectors R) (p : Preparing R G)
      → Kept nP pid k g (record y { rand_sh_sec = valn ∷ tagn ∷ y.rand_sh_sec }) p
      → Kept nP pid k (twice_but_last randomize nP pid g) y (party_share_secret randomize nP p).1
        × ((party_share_secret randomize nP p).0
            ≡ (random_share_secret_party randomize nP pid k g (valn ∷ tagn ∷ y.rand_sh_sec)).0)
  unfolding random_share_secret_party next_entry
  party_share_secret-Kept pid k g valn tagn y p h = elim (Bool-cases (pid == nP)) [
    | inl b ↦
        let e : pid ≡ nP = ground arith in
        (
          record {
            id = h.id;
            key = h.key;
            p0 = rw (h.id, h.key, h.p0, b, random_share_secret_party) refl;
            vectors = λ _. rw (h.id, h.key, h.p0, h.vectors e, b, random_share_secret_party) refl;
          },
          rw (h.id, h.key, h.p0, h.vectors e, b, random_share_secret_party) refl,
        )
    | inr b ↦ (
      record {
        id = h.id;
        key = h.key;
        p0 = rw (h.id, h.key, h.p0, b, random_share_secret_party) refl;
        vectors = λ e. absurd (ground arith);
      },
      rw (h.id, h.key, h.p0, b, random_share_secret_party) refl,
    )
  ]

  pub share_secret-Joint :
      (ps : List (Preparing R G))
      → Joint nP whole t ps
      → Extends whole (tp_share_secret randomize sec t).1
      → IsTp nP (tp_share_secret randomize sec t).0 sec
        × IsSharing (map (λ p. (party_share_secret randomize nP p).0) ps) t.dealer.key sec
        × Joint nP whole
            (tp_share_secret randomize sec t).1
            (map (λ p. (party_share_secret randomize nP p).1) ps)
  unfolding random_share_secret push_tag push_value
  share_secret-Joint ps h (y, j) =
      let (valn, tagn, found, sent, shared) =
        random_share_secret-IsSharing randomize t.dealer nP sec y.rand_sh_sec h.dealt in
      let rest : h.rest ≡ record y { rand_sh_sec = valn ∷ tagn ∷ y.rand_sh_sec } =
        rest_eq h.rest y.rand_sh (valn ∷ tagn ∷ y.rand_sh_sec) y.rand_sh_party
          (append_cancel t.dealer.rand_sh h.rest.rand_sh y.rand_sh (h.joined.sh ∙ sym j.sh))
          (left_after t.dealer.rand_sh_sec (valn ∷ tagn ∷ []) h.rest.rand_sh_sec y.rand_sh_sec
            whole.rand_sh_sec h.joined.sec (ap (λ xs. xs ++ y.rand_sh_sec) (sym sent) ∙ j.sec))
          (append_cancel t.rand_sh_party h.rest.rand_sh_party y.rand_sh_party
            (h.joined.party ∙ sym j.party)) in
      let synced = subst (λ z. Synced nP 1 t.dealer.key_shs t.dealer.pis z ps) rest h.synced in
      let pis : (tp_share_secret randomize sec t).1.dealer.pis
          ≡ advance (twice_but_last randomize nP) 1 t.dealer.pis =
        secret_loop-advance randomize nP 1 t.dealer.pis t.dealer.key_shs (own_place t.dealer) r.zero
          r.zero h.dealt.same (omega (arith, h.dealt.count)) in
      (
        random_share_secret-IsTp randomize t.dealer nP sec h.dealt,
        subst (λ xs. IsSharing xs t.dealer.key sec)
            (sym (
              Synced-map nP (λ p. (party_share_secret randomize nP p).0)
                (λ pid k g.
                  (random_share_secret_party randomize nP pid k g (valn ∷ tagn ∷ y.rand_sh_sec)).0)
                (λ pid ks gs.
                  party_secret_shares randomize nP pid ks gs (valn ∷ tagn ∷ y.rand_sh_sec))
                _ (λ pid. refl) (λ pid k ks g gs. refl)
                (λ pid k g p kept. (party_share_secret-Kept pid k g valn tagn y p kept).1) 1
                t.dealer.key_shs t.dealer.pis ps synced))
            shared,
        next-Joint nP whole t (tp_share_secret randomize sec t).1 ps (twice_but_last randomize nP)
            (λ p. (party_share_secret randomize nP p).1)
            (record y { rand_sh_sec = valn ∷ tagn ∷ y.rand_sh_sec }) y h rest refl refl pis j
            (λ pid k g p kept. (party_share_secret-Kept pid k g valn tagn y p kept).0),
      )
