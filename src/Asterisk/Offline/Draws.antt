-- ===== src/Asterisk/Offline/Draws.antt =====
-- What the trusted party and the parties draw, and the sums of the parties' shares.
use qysnc_submission.Common.{
  ℕ, suc, ◌+◌, ◌≤◌, ◌≡◌, refl, sym, ◌∙◌, ap, ap₂, some, List, [], ◌∷◌, ◌++◌, append_assoc,
  append-nil, map, length, length-append, arith,
}
use qysnc_submission.Ring.{CommRing, ◌⊕◌, ◌⊗◌, ◌⊖◌}
use qysnc_submission.Ring.Laws.{total, add-zero, add-sub_cancel}
use qysnc_submission.Sharing.{
  AuthAddShare, TpShare, push_value, push_tag, push_key_sh, secret, sum_from,
}
use qysnc_submission.Sharing.Mac.{value_of, tag_of, key_of}
use qysnc_submission.Asterisk.Shared.{IsSharing}
use qysnc_submission.Asterisk.Offline.{Dealer, own_place, key_loop, key_gen}

module _ {ℓ} {R : Type ℓ} ⦃r : CommRing R⦄ where
  sum_from-total : (res : R) (xs : List R) → sum_from res xs ≡ res ⊕ total xs
  unfolding sum_from
  sum_from-total res [] = sym (add-zero res)
  sum_from-total res (x ∷ xs) = sum_from-total (res ⊕ x) xs ∙ r.add_assoc res x (total xs)

  -- The sums of the parties' shares.
  pub record Sums (xs : List (AuthAddShare R)) (k v t : R) : Type ℓ where
    pub key : key_of xs ≡ k
    pub value : value_of xs ≡ v
    pub tag : tag_of xs ≡ t

  pub Sums-IsSharing :
      (xs : List (AuthAddShare R)) (k v t : R) → Sums xs k v t → t ≡ k ⊗ v → IsSharing xs k v
  Sums-IsSharing xs k v t h e = record {
    key = h.key;
    authentic = h.tag ∙ e ∙ sym (ap₂ ◌⊗◌ h.key h.value);
    value = h.value;
  }

  -- The parties' tags that the last party's tag completes.
  pub complete : (t x : R) → t ⊕ (x ⊖ (r.zero ⊕ t)) ≡ x
  complete t x = ap (λ z. t ⊕ (x ⊖ z)) (r.zero-add t) ∙ add-sub_cancel t x

  pub secret-values :
      (share : TpShare R) (xs : List R)
      → share.values ≡ r.zero ∷ xs
      → secret share ≡ some (total xs)
  unfolding secret
  secret-values share xs e =
      rw (e, secret) (ap some (sum_from-total r.zero xs ∙ r.zero-add (total xs)))

module _ {ℓ κ} {R : Type ℓ} {G : Type κ} ⦃r : CommRing R⦄ where
  -- The trusted party has a key share and a generator for each of the `nP` parties, at least one, and
  -- the key that the shares add up to.
  pub record Dealt (t : Dealer R G) (nP : ℕ) : Type (ℓ ⊔ κ) where
    pub same : length t.key_shs ≡ length t.pis
    pub count : nP ≡ length t.pis
    pub some_party : 1 ≤ nP
    pub keyed : t.key ≡ total t.key_shs

  pub own_values : (t : Dealer R G) → (own_place t).values ≡ r.zero ∷ []
  unfolding own_place push_value push_tag push_key_sh
  own_values t = refl

module _ {ℓ κ} {R : Type ℓ} {G : Type κ} ⦃r : CommRing R⦄ (randomize : G → R × G) where
  abbrev pub value_of_draw : G → R
  value_of_draw g = (randomize g).0

  abbrev pub tag_of_draw : G → R
  tag_of_draw g = (randomize (randomize g).1).0

  -- The values drawn from all generators, and the tags from all but the last.
  abbrev pub drawn : List G → List R
  drawn pis = map value_of_draw pis

  abbrev pub init_of : (G → R) → List G → List R
  init_of f [] = []
  init_of f (g ∷ []) = []
  init_of f (g ∷ h ∷ pis) = f g ∷ init_of f (h ∷ pis)

  pub key_loop-total :
      (pis : List G) (key : R) (ks : List R) (used : List G)
      → ((key_loop randomize pis key ks used).0 ≡ key ⊕ total (drawn pis))
        × ((key_loop randomize pis key ks used).1 ≡ ks ++ drawn pis)
        × (length (key_loop randomize pis key ks used).2 ≡ length used + length pis)
  unfolding key_loop
  key_loop-total [] key ks used = (sym (add-zero key), sym (append-nil ks), omega arith)
  key_loop-total (g ∷ pis) key ks used =
      let (k, g') = randomize g in
      let rest = key_loop-total pis (key ⊕ k) (ks ++ (k ∷ [])) (used ++ (g' ∷ [])) in
      (
        rest.0 ∙ r.add_assoc key k (total (drawn pis)),
        rest.1 ∙ append_assoc ks (k ∷ []) (drawn pis),
        omega (arith, rest.2, length-append used (g' ∷ [])),
      )

  pub length-drawn : (pis : List G) → length (drawn pis) ≡ length pis
  length-drawn [] = refl
  length-drawn (g ∷ pis) = ap suc (length-drawn pis)

  -- `keyGen` deals a key.
  pub key_gen-Dealt : (pis : List G) → 1 ≤ length pis → Dealt (key_gen randomize pis) (length pis)
  unfolding key_gen
  key_gen-Dealt pis h =
      let loop = key_loop-total pis r.zero [] [] in
      record {
        same = ap length loop.1 ∙ length-drawn pis ∙ omega (arith, loop.2);
        count = omega (arith, loop.2);
        some_party = h;
        keyed = loop.0 ∙ r.zero-add (total (drawn pis)) ∙ ap total (sym loop.1);
      }
