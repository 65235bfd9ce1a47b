-- ===== src/Asterisk/Offline/Secret.antt =====
-- `randomShareSecret`: the parties' shares are those that the trusted party dealt.
use qysnc_submission.Common.{
  ℕ, suc, ◌+◌, ◌≤◌, ◌≡◌, refl, sym, ◌∙◌, ap, ap₂, subst, ◌==◌, ne→==, if◌then◌else◌, Bool-cases,
  true, false, inl, inr, some, List, [], ◌∷◌, ◌++◌, append_assoc, append-nil, length, arith,
}
use qysnc_submission.Ring.{CommRing, ◌⊕◌, ◌⊗◌, ◌⊖◌}
use qysnc_submission.Ring.Laws.{total, total-append, add-zero}
use qysnc_submission.Sharing.{AuthAddShare, TpShare, push_value, push_tag, push_key_sh, secret}
use qysnc_submission.Asterisk.Shared.{IsSharing}
use qysnc_submission.Asterisk.Offline.{
  Dealer, own_place, next_entry, secret_loop, random_share_secret, random_share_secret_party,
}
use qysnc_submission.Asterisk.Offline.Draws.{
  value_of_draw, tag_of_draw, init_of, Sums, own_values, Sums-IsSharing, complete, secret-values,
  Dealt,
}

module _ {ℓ κ} {R : Type ℓ} {G : Type κ} ⦃r : CommRing R⦄ (randomize : G → R × G) where
  -- `randomShareSecret` of the parties from `pid` on.
  abbrev pub party_secret_shares : ℕ → ℕ → List R → List G → List R → List (AuthAddShare R)
  party_secret_shares nP pid (k ∷ ks) (g ∷ pis) rand_sh_sec =
      (random_share_secret_party randomize nP pid k g rand_sh_sec).0
      ∷ party_secret_shares nP (suc pid) ks pis rand_sh_sec
  party_secret_shares nP pid _ _ rand_sh_sec = []

  pub secret_loop-drawn :
      (pis : List G) (ks : List R) (share : TpShare R) (valn tagn : R)
      → length ks ≡ length pis
      → ((secret_loop randomize pis ks share valn tagn).1.values
          ≡ share.values ++ init_of randomize (value_of_draw randomize) pis)
        × ((secret_loop randomize pis ks share valn tagn).2
            ≡ valn ⊕ total (init_of randomize (value_of_draw randomize) pis))
        × ((secret_loop randomize pis ks share valn tagn).3
            ≡ tagn ⊕ total (init_of randomize (tag_of_draw randomize) pis))
  unfolding secret_loop push_value push_tag push_key_sh
  secret_loop-drawn [] [] share valn tagn e =
      (sym (append-nil share.values), sym (add-zero valn), sym (add-zero tagn))
  secret_loop-drawn [] (k ∷ ks) share valn tagn e = absurd (omega arith)
  secret_loop-drawn (g ∷ []) [] share valn tagn e = absurd (omega arith)
  secret_loop-drawn (g ∷ []) (k ∷ ks) share valn tagn e =
      (sym (append-nil share.values), sym (add-zero valn), sym (add-zero tagn))
  secret_loop-drawn (g ∷ h ∷ pis) [] share valn tagn e = absurd (omega arith)
  secret_loop-drawn (g ∷ h ∷ pis) (k ∷ ks) share valn tagn e =
      let rest =
        secret_loop-drawn (h ∷ pis) ks
          (push_key_sh
            (push_tag (push_value share (value_of_draw randomize g)) (tag_of_draw randomize g)) k)
          (valn ⊕ value_of_draw randomize g) (tagn ⊕ tag_of_draw randomize g) (omega arith) in
      (
        rest.0
            ∙ append_assoc share.values (value_of_draw randomize g ∷ [])
                (init_of randomize (value_of_draw randomize) (h ∷ pis)),
        rest.1
            ∙ r.add_assoc valn (value_of_draw randomize g)
                (total (init_of randomize (value_of_draw randomize) (h ∷ pis))),
        rest.2
            ∙ r.add_assoc tagn (tag_of_draw randomize g)
                (total (init_of randomize (tag_of_draw randomize) (h ∷ pis))),
      )

  random_share_secret_party-share :
      (nP pid : ℕ) (k : R) (g : G) (valn tagn : R) (rest : List R)
      → (random_share_secret_party randomize nP pid k g (valn ∷ tagn ∷ rest)).0 ≡ record {
        key_sh = k;
        value = if pid == nP then valn else value_of_draw randomize g;
        tag = if pid == nP then tagn else tag_of_draw randomize g;
      }
  unfolding random_share_secret_party next_entry
  random_share_secret_party-share nP pid k g valn tagn rest = elim (Bool-cases (pid == nP)) [
    | inl e ↦ rw (e, random_share_secret_party) refl
    | inr e ↦ rw (e, random_share_secret_party) refl
  ]

  party_secret_shares-Sums :
      (nP pid : ℕ) (pis : List G) (ks : List R) (valn tagn : R) (rest : List R)
      → length ks ≡ length pis
      → 1 ≤ length pis
      → pid + length pis ≡ suc nP
      → Sums
          (party_secret_shares nP pid ks pis (valn ∷ tagn ∷ rest))
          (total ks)
          (total (init_of randomize (value_of_draw randomize) pis) ⊕ valn)
          (total (init_of randomize (tag_of_draw randomize) pis) ⊕ tagn)
  party_secret_shares-Sums nP pid [] ks valn tagn rest e some_party ids = absurd (omega arith)
  party_secret_shares-Sums nP pid (g ∷ pis) [] valn tagn rest e some_party ids =
      absurd (omega arith)
  party_secret_shares-Sums nP pid (g ∷ []) (k ∷ []) valn tagn rest e some_party ids =
      let here : (pid == nP) ≡ true = ground arith in
      let share = random_share_secret_party-share nP pid k g valn tagn rest in
      record {
        key = ap (λ s. s.key_sh ⊕ r.zero) share;
        value =
            ap (λ s. s.value ⊕ r.zero) share
            ∙ ap (λ b. (if b then valn else value_of_draw randomize g) ⊕ r.zero) here
            ∙ r.add_comm valn r.zero;
        tag =
            ap (λ s. s.tag ⊕ r.zero) share
            ∙ ap (λ b. (if b then tagn else tag_of_draw randomize g) ⊕ r.zero) here
            ∙ r.add_comm tagn r.zero;
      }
  party_secret_shares-Sums nP pid (g ∷ []) (k ∷ k' ∷ ks) valn tagn rest e some_party ids =
      absurd (omega arith)
  party_secret_shares-Sums nP pid (g ∷ h ∷ pis) (k ∷ ks) valn tagn rest e some_party ids =
      let others =
        party_secret_shares-Sums nP (suc pid) (h ∷ pis) ks valn tagn rest (omega arith)
          (omega arith) (omega arith) in
      let here : (pid == nP) ≡ false = ne→== pid nP (λ e'. absurd (omega arith)) in
      let share = random_share_secret_party-share nP pid k g valn tagn rest in
      let values = total (init_of randomize (value_of_draw randomize) (h ∷ pis)) in
      let tags = total (init_of randomize (tag_of_draw randomize) (h ∷ pis)) in
      record {
        key = ap₂ (λ s z. s.key_sh ⊕ z) share others.key;
        value =
            ap₂ (λ s z. s.value ⊕ z) share others.value
            ∙ ap (λ b. (if b then valn else value_of_draw randomize g) ⊕ (values ⊕ valn)) here
            ∙ sym (r.add_assoc (value_of_draw randomize g) values valn);
        tag =
            ap₂ (λ s z. s.tag ⊕ z) share others.tag
            ∙ ap (λ b. (if b then tagn else tag_of_draw randomize g) ⊕ (tags ⊕ tagn)) here
            ∙ sym (r.add_assoc (tag_of_draw randomize g) tags tagn);
      }

  -- `randomShareSecret`: with the key and its shares dealt, the value of the trusted party's sharing
  -- is the secret `sec`, and the parties' shares, in which the last party reads the two entries of
  -- `rand_sh_sec` that this call added, share `sec` under the key, with their tags.
  pub random_share_secret-IsSharing :
      (t : Dealer R G) (nP : ℕ) (sec : R) (rest : List R)
      → Dealt t nP
      → (valn tagn : R) × (secret (random_share_secret randomize t sec).0 ≡ some sec)
        × ((random_share_secret randomize t sec).1.rand_sh_sec
            ≡ t.rand_sh_sec ++ (valn ∷ tagn ∷ []))
        × IsSharing (party_secret_shares nP 1 t.key_shs t.pis (valn ∷ tagn ∷ rest)) t.key sec
  unfolding random_share_secret push_tag push_value secret
  random_share_secret-IsSharing t nP sec rest h =
      let e = h.same in
      let size = h.count in
      let some_party = h.some_party in
      let keyed = h.keyed in
      let values = total (init_of randomize (value_of_draw randomize) t.pis) in
      let tags = total (init_of randomize (tag_of_draw randomize) t.pis) in
      let loop = secret_loop-drawn t.pis t.key_shs (own_place t) r.zero r.zero e in
      let valn = sec ⊖ (r.zero ⊕ values) in
      let tagn = t.key ⊗ sec ⊖ (r.zero ⊕ tags) in
      let shares =
        party_secret_shares-Sums nP 1 t.pis t.key_shs valn tagn rest e (omega arith)
          (omega arith) in
      (
        valn,
        tagn,
        secret-values (random_share_secret randomize t sec).0
              (init_of randomize (value_of_draw randomize) t.pis ++ (valn ∷ []))
              (ap₂ (λ vs x. vs ++ ((sec ⊖ x) ∷ []))
                (loop.0
                  ∙ ap (λ vs. vs ++ init_of randomize (value_of_draw randomize) t.pis)
                      (own_values t))
                loop.1)
            ∙ ap some (
                total-append (init_of randomize (value_of_draw randomize) t.pis) (valn ∷ [])
                ∙ ap (λ z. values ⊕ z) (add-zero valn)
                ∙ complete values sec),
        ap₂ (λ x y. t.rand_sh_sec ++ ((sec ⊖ x) ∷ (t.key ⊗ sec ⊖ y) ∷ [])) loop.1 loop.2,
        subst (λ k. IsSharing (party_secret_shares nP 1 t.key_shs t.pis (valn ∷ tagn ∷ rest)) k sec)
            (sym keyed)
            (Sums-IsSharing _ (total t.key_shs) sec (tags ⊕ tagn)
              (record {
                key = shares.key;
                value = shares.value ∙ complete values sec;
                tag = shares.tag;
              })
              (complete tags (t.key ⊗ sec) ∙ ap (λ k. k ⊗ sec) keyed)),
      )
