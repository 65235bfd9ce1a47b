-- ===== src/Asterisk/Offline/Share.antt =====
-- `randomShare`: the parties' shares are those that the trusted party dealt.
use qysnc_submission.Common.{
  ℕ, suc, ◌+◌, ◌≤◌, ◌≡◌, refl, sym, ◌∙◌, ap, ap₂, subst, ◌==◌, ne→==, if◌then◌else◌, Bool-cases,
  true, false, inl, inr, Option, none, some, List, [], ◌∷◌, ◌++◌, append_assoc, append-nil, length,
  arith,
}
use qysnc_submission.Ring.{CommRing, ◌⊕◌, ◌⊗◌, ◌⊖◌}
use qysnc_submission.Ring.Laws.{total, add-zero}
use qysnc_submission.Sharing.{AuthAddShare, TpShare, push_value, push_tag, push_key_sh, secret}
use qysnc_submission.Asterisk.Shared.{IsSharing}
use qysnc_submission.Asterisk.Offline.{
  Dealer, own_place, share_loop, random_share, next_entry, random_share_party,
}
use qysnc_submission.Asterisk.Offline.Draws.{
  value_of_draw, tag_of_draw, drawn, init_of, Sums, own_values, Sums-IsSharing, complete,
  secret-values, Dealt,
}

module _ {ℓ κ} {R : Type ℓ} {G : Type κ} ⦃r : CommRing R⦄ (randomize : G → R × G) where
  -- `randomShare` of the parties from `pid` on, each with its key share and its generator.
  abbrev pub party_shares : ℕ → ℕ → List R → List G → List R → List (AuthAddShare R)
  party_shares nP pid (k ∷ ks) (g ∷ pis) rand_sh =
      (random_share_party randomize nP pid k g rand_sh).0 ∷ party_shares nP (suc pid) ks pis rand_sh
  party_shares nP pid _ _ rand_sh = []

  -- The loop puts the drawn values into the share, and adds up the tags.
  pub share_loop-drawn :
      (pis : List G) (ks : List R) (share : TpShare R) (tagn : R)
      → length ks ≡ length pis
      → ((share_loop randomize pis ks share tagn).1.values ≡ share.values ++ drawn randomize pis)
        × ((share_loop randomize pis ks share tagn).2
            ≡ tagn ⊕ total (init_of randomize (tag_of_draw randomize) pis))
  unfolding share_loop push_value push_tag push_key_sh
  share_loop-drawn [] [] share tagn e = (sym (append-nil share.values), sym (add-zero tagn))
  share_loop-drawn [] (k ∷ ks) share tagn e = absurd (omega arith)
  share_loop-drawn (g ∷ []) [] share tagn e = absurd (omega arith)
  share_loop-drawn (g ∷ []) (k ∷ ks) share tagn e = (refl, sym (add-zero tagn))
  share_loop-drawn (g ∷ h ∷ pis) [] share tagn e = absurd (omega arith)
  share_loop-drawn (g ∷ h ∷ pis) (k ∷ ks) share tagn e =
      let rest =
        share_loop-drawn (h ∷ pis) ks
          (push_tag (push_key_sh (push_value share (value_of_draw randomize g)) k)
            (tag_of_draw randomize g))
          (tagn ⊕ tag_of_draw randomize g) (omega arith) in
      (
        rest.0
            ∙ append_assoc share.values (value_of_draw randomize g ∷ [])
                (drawn randomize (h ∷ pis)),
        rest.1
            ∙ r.add_assoc tagn (tag_of_draw randomize g)
                (total (init_of randomize (tag_of_draw randomize) (h ∷ pis))),
      )

  random_share_party-share :
      (nP pid : ℕ) (k : R) (g : G) (last : R) (rest : List R)
      → (random_share_party randomize nP pid k g (last ∷ rest)).0 ≡ record {
        key_sh = k;
        value = value_of_draw randomize g;
        tag = if pid == nP then last else tag_of_draw randomize g;
      }
  unfolding random_share_party next_entry
  random_share_party-share nP pid k g last rest = elim (Bool-cases (pid == nP)) [
    | inl e ↦ rw (e, random_share_party) refl
    | inr e ↦ rw (e, random_share_party) refl
  ]

  party_shares-Sums :
      (nP pid : ℕ) (pis : List G) (ks : List R) (last : R) (rest : List R)
      → length ks ≡ length pis
      → 1 ≤ length pis
      → pid + length pis ≡ suc nP
      → Sums
          (party_shares nP pid ks pis (last ∷ rest))
          (total ks)
          (total (drawn randomize pis))
          (total (init_of randomize (tag_of_draw randomize) pis) ⊕ last)
  party_shares-Sums nP pid [] ks last rest e some_party ids = absurd (omega arith)
  party_shares-Sums nP pid (g ∷ pis) [] last rest e some_party ids = absurd (omega arith)
  party_shares-Sums nP pid (g ∷ []) (k ∷ []) last rest e some_party ids =
      let here : (pid == nP) ≡ true = ground arith in
      let share = random_share_party-share nP pid k g last rest in
      record {
        key = ap (λ s. s.key_sh ⊕ r.zero) share;
        value = ap (λ s. s.value ⊕ r.zero) share;
        tag =
            ap (λ s. s.tag ⊕ r.zero) share
            ∙ ap (λ b. (if b then last else tag_of_draw randomize g) ⊕ r.zero) here
            ∙ r.add_comm last r.zero;
      }
  party_shares-Sums nP pid (g ∷ []) (k ∷ k' ∷ ks) last rest e some_party ids = absurd (omega arith)
  party_shares-Sums nP pid (g ∷ h ∷ pis) (k ∷ ks) last rest e some_party ids =
      let others =
        party_shares-Sums nP (suc pid) (h ∷ pis) ks last rest (omega arith) (omega arith)
          (omega arith) in
      let here : (pid == nP) ≡ false = ne→== pid nP (λ e'. absurd (omega arith)) in
      let share = random_share_party-share nP pid k g last rest in
      record {
        key = ap₂ (λ s z. s.key_sh ⊕ z) share others.key;
        value = ap₂ (λ s z. s.value ⊕ z) share others.value;
        tag =
            ap₂ (λ s z. s.tag ⊕ z) share others.tag
            ∙ ap
                (λ b.
                  (if b then last else tag_of_draw randomize g)
                  ⊕ (total (init_of randomize (tag_of_draw randomize) (h ∷ pis)) ⊕ last))
                here
            ∙ sym (
                r.add_assoc (tag_of_draw randomize g)
                  (total (init_of randomize (tag_of_draw randomize) (h ∷ pis))) last);
      }

  secret-drawn :
      (t : Dealer R G)
      → length t.key_shs ≡ length t.pis
      → secret (share_loop randomize t.pis t.key_shs (own_place t) r.zero).1
        ≡ some (total (drawn randomize t.pis))
  secret-drawn t e =
      secret-values (share_loop randomize t.pis t.key_shs (own_place t) r.zero).1
        (drawn randomize t.pis)
        ((share_loop-drawn t.pis t.key_shs (own_place t) r.zero e).0
          ∙ ap (λ xs. xs ++ drawn randomize t.pis) (own_values t))

  -- `randomShare`: with the key and its shares dealt, the trusted party's sharing has a value, and
  -- the parties' shares, in which the last party reads the entry of `rand_sh` that this call added,
  -- share this value under the key, with their tags.
  pub random_share-IsSharing :
      (t : Dealer R G) (nP : ℕ) (rest : List R)
      → Dealt t nP
      → (v last : R) × (secret (random_share randomize t).0 ≡ some v)
        × ((random_share randomize t).1.rand_sh ≡ t.rand_sh ++ (last ∷ []))
        × IsSharing (party_shares nP 1 t.key_shs t.pis (last ∷ rest)) t.key v
  unfolding random_share push_tag secret
  random_share-IsSharing t nP rest h =
      let e = h.same in
      let size = h.count in
      let some_party = h.some_party in
      let keyed = h.keyed in
      let v = total (drawn randomize t.pis) in
      let sums = total (init_of randomize (tag_of_draw randomize) t.pis) in
      let loop = share_loop-drawn t.pis t.key_shs (own_place t) r.zero e in
      let found = secret-drawn t e in
      let last = t.key ⊗ v ⊖ (r.zero ⊕ sums) in
      let added : Option R → R → List R =
        λ o z. t.rand_sh ++ ((t.key ⊗ (elim o [ none ↦ r.zero | some s ↦ s ]) ⊖ z) ∷ []) in
      let shares = party_shares-Sums nP 1 t.pis t.key_shs last rest e (omega arith) (omega arith) in
      (
        v,
        last,
        found,
        ap₂ added found loop.1,
        subst (λ k. IsSharing (party_shares nP 1 t.key_shs t.pis (last ∷ rest)) k v) (sym keyed)
            (Sums-IsSharing _ (total t.key_shs) v (sums ⊕ last) shares
              (complete sums (t.key ⊗ v) ∙ ap (λ k. k ⊗ v) keyed)),
      )
