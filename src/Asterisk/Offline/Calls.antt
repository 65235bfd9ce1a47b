-- ===== src/Asterisk/Offline/Calls.antt =====
-- `randomShare` keeps the trusted party and the parties in step.
pub mod Secret
pub mod Owner
pub mod WithParty
use qysnc_submission.Common.{
  ℕ, suc, ◌+◌, ◌≤◌, ◌≡◌, refl, sym, ◌∙◌, ap, ap₂, subst, ◌==◌, ne→==, if◌then◌else◌, Bool-cases,
  true, false, inl, inr, some, List, [], ◌∷◌, ◌++◌, append_assoc, map, length, length-append, arith,
}
use qysnc_submission.Ring.{CommRing, ◌⊕◌, ◌⊗◌, ◌⊖◌}
use qysnc_submission.Ring.Laws.{total}
use qysnc_submission.Sharing.{AuthAddShare, TpShare, push_value, push_tag, push_key_sh, secret}
use qysnc_submission.Asterisk.Shared.{IsSharing}
use qysnc_submission.Asterisk.Offline.{
  Dealer, own_place, next_entry, share_loop, random_share, random_share_party, secret_loop,
  random_share_secret, random_share_secret_party,
}
use qysnc_submission.Asterisk.Offline.Draws.{
  value_of_draw, tag_of_draw, drawn, init_of, own_values, Dealt, length-drawn,
}
use qysnc_submission.Asterisk.Offline.Share.{party_shares, share_loop-drawn, random_share-IsSharing}
use qysnc_submission.Asterisk.Offline.Secret.{
  party_secret_shares, secret_loop-drawn, random_share_secret-IsSharing,
}
use qysnc_submission.Asterisk.Offline.Role.{
  Tp, Vectors, Preparing, tp_share, tp_share_secret, party_share, party_share_secret,
}
use qysnc_submission.Asterisk.Offline.Sync.{
  left_after, append_cancel, IsTp, values-IsTp, advance, length-advance, Joined, Extends, Kept,
  Synced, Synced-map, Joint, moved-Dealt, next-Joint, rest_eq,
}

module _ {ℓ κ} {R : Type ℓ} {G : Type κ} ⦃r : CommRing R⦄ (randomize : G → R × G) where
  -- Two draws.
  abbrev pub twice : ℕ → G → G
  twice pid g = (randomize (randomize g).1).1

  share_loop-advance :
      (pid : ℕ) (pis : List G) (ks : List R) (share : TpShare R) (tagn : R)
      → length ks ≡ length pis
      → (share_loop randomize pis ks share tagn).0 ≡ advance twice pid pis
  unfolding share_loop
  share_loop-advance pid [] [] share tagn e = refl
  share_loop-advance pid [] (k ∷ ks) share tagn e = absurd (omega arith)
  share_loop-advance pid (g ∷ []) [] share tagn e = absurd (omega arith)
  share_loop-advance pid (g ∷ []) (k ∷ ks) share tagn e = refl
  share_loop-advance pid (g ∷ h ∷ pis) [] share tagn e = absurd (omega arith)
  share_loop-advance pid (g ∷ h ∷ pis) (k ∷ ks) share tagn e =
      ap (◌∷◌ (twice pid g)) (share_loop-advance (suc pid) (h ∷ pis) ks _ _ (omega arith))

module _ {ℓ κ} {R : Type ℓ} {G : Type κ} ⦃r : CommRing R⦄ (randomize : G → R × G) (nP : ℕ)
    (whole : Vectors R) (t : Tp R G) where
  pub tp_share-key : (tp_share randomize t).1.dealer.key ≡ t.dealer.key
  unfolding random_share
  tp_share-key = refl

  pub tp_share-Dealt : Dealt t.dealer nP → Dealt (tp_share randomize t).1.dealer nP
  unfolding random_share
  tp_share-Dealt h =
      moved-Dealt t.dealer (tp_share randomize t).1.dealer nP (twice randomize) h refl refl (
        share_loop-advance randomize 1 t.dealer.pis t.dealer.key_shs (own_place t.dealer) r.zero
          h.same)

  pub tp_share-Extends :
      Dealt t.dealer nP → Extends whole (tp_share randomize t).1 → Extends whole t
  unfolding random_share
  tp_share-Extends h (y, j) =
      let (v, last, found, sent, shared) = random_share-IsSharing randomize t.dealer nP [] h in
      (
        record y { rand_sh = last ∷ y.rand_sh },
        record {
          sh =
              sym (append_assoc t.dealer.rand_sh (last ∷ []) y.rand_sh)
              ∙ ap (λ xs. xs ++ y.rand_sh) (sym sent)
              ∙ j.sh;
          sec = j.sec;
          party = j.party;
        },
      )

  party_share-Kept :
      (pid : ℕ) (k : R) (g : G) (last : R) (y : Vectors R) (p : Preparing R G)
      → Kept nP pid k g (record y { rand_sh = last ∷ y.rand_sh }) p
      → Kept nP pid k (twice randomize pid g) y (party_share randomize nP p).1
        × ((party_share randomize nP p).0
            ≡ (random_share_party randomize nP pid k g (last ∷ y.rand_sh)).0)
  unfolding random_share_party next_entry
  party_share-Kept pid k g last y p h = elim (Bool-cases (pid == nP)) [
    | inl b ↦
        let e : pid ≡ nP = ground arith in
        (
          record {
            id = h.id;
            key = h.key;
            p0 = rw (h.id, h.key, h.p0, b, random_share_party) refl;
            vectors = λ _. rw (h.id, h.key, h.p0, h.vectors e, b, random_share_party) refl;
          },
          rw (h.id, h.key, h.p0, h.vectors e, b, random_share_party) refl,
        )
    | inr b ↦ (
      record {
        id = h.id;
        key = h.key;
        p0 = rw (h.id, h.key, h.p0, b, random_share_party) refl;
        vectors = λ e. absurd (ground arith);
      },
      rw (h.id, h.key, h.p0, b, random_share_party) refl,
    )
  ]

  pub share-Joint :
      (ps : List (Preparing R G))
      → Joint nP whole t ps
      → Extends whole (tp_share randomize t).1
      → (v : R) × IsTp nP (tp_share randomize t).0 v
        × IsSharing (map (λ p. (party_share randomize nP p).0) ps) t.dealer.key v
        × Joint nP whole (tp_share randomize t).1 (map (λ p. (party_share randomize nP p).1) ps)
  unfolding random_share push_tag
  share-Joint ps h (y, j) =
      let (v, last, found, sent, shared) =
        random_share-IsSharing randomize t.dealer nP y.rand_sh h.dealt in
      let rest : h.rest ≡ record y { rand_sh = last ∷ y.rand_sh } =
        rest_eq h.rest (last ∷ y.rand_sh) y.rand_sh_sec y.rand_sh_party
          (left_after t.dealer.rand_sh (last ∷ []) h.rest.rand_sh y.rand_sh whole.rand_sh
            h.joined.sh (ap (λ xs. xs ++ y.rand_sh) (sym sent) ∙ j.sh))
          (append_cancel t.dealer.rand_sh_sec h.rest.rand_sh_sec y.rand_sh_sec
            (h.joined.sec ∙ sym j.sec))
          (append_cancel t.rand_sh_party h.rest.rand_sh_party y.rand_sh_party
            (h.joined.party ∙ sym j.party)) in
      let synced = subst (λ z. Synced nP 1 t.dealer.key_shs t.dealer.pis z ps) rest h.synced in
      let pis : (tp_share randomize t).1.dealer.pis ≡ advance (twice randomize) 1 t.dealer.pis =
        share_loop-advance randomize 1 t.dealer.pis t.dealer.key_shs (own_place t.dealer) r.zero
          h.dealt.same in
      (
        v,
        values-IsTp nP _ v (drawn randomize t.dealer.pis)
            ((share_loop-drawn randomize t.dealer.pis t.dealer.key_shs (own_place t.dealer) r.zero
                h.dealt.same).0
              ∙ ap (λ xs. xs ++ drawn randomize t.dealer.pis) (own_values t.dealer))
            (length-drawn randomize t.dealer.pis ∙ sym h.dealt.count) found,
        subst (λ xs. IsSharing xs t.dealer.key v)
            (sym (
              Synced-map nP (λ p. (party_share randomize nP p).0)
                (λ pid k g. (random_share_party randomize nP pid k g (last ∷ y.rand_sh)).0)
                (λ pid ks gs. party_shares randomize nP pid ks gs (last ∷ y.rand_sh)) _
                (λ pid. refl) (λ pid k ks g gs. refl)
                (λ pid k g p kept. (party_share-Kept pid k g last y p kept).1) 1 t.dealer.key_shs
                t.dealer.pis ps synced))
            shared,
        next-Joint nP whole t (tp_share randomize t).1 ps (twice randomize)
            (λ p. (party_share randomize nP p).1) (record y { rand_sh = last ∷ y.rand_sh }) y h rest
            refl refl pis j (λ pid k g p kept. (party_share-Kept pid k g last y p kept).0),
      )
