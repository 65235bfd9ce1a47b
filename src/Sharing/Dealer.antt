-- ===== src/Sharing/Dealer.antt =====
-- What the trusted party keeps of the parties' shares stays what the parties have.
use qysnc_submission.Common.{
  ℕ, zero, suc, ◌≡◌, refl, List, [], ◌∷◌, none, some, get_elem?, map, arith,
}
use qysnc_submission.Ring.{CommRing, ◌⊕◌, ◌⊗◌}
use qysnc_submission.Sharing.{
  AuthAddShare, TpShare, plus, times, minus, get_aas, combine, combine_rest, map_rest, tp_plus,
  tp_times, tp_minus,
}

module _ {ℓ} {A : Type ℓ} where
  none-some : {a : A} → none ≡ some a → ⊥
  none-some e = cc

module _ {ℓ} {R : Type ℓ} ⦃r : CommRing R⦄ where
  get_elem-combine :
      (f : R → R → R) (xs ys : List R) (p : ℕ) {x y : R}
      → get_elem? xs p ≡ some x
      → get_elem? ys p ≡ some y
      → get_elem? (combine f xs ys) p ≡ some (f x y)
  unfolding combine
  get_elem-combine f [] ys p e e' = absurd (none-some e)
  get_elem-combine f (x ∷ xs) [] p e e' = absurd (none-some e')
  get_elem-combine f (x ∷ xs) (y ∷ ys) zero e e' = cc
  get_elem-combine f (x ∷ xs) (y ∷ ys) (suc p) e e' = get_elem-combine f xs ys p e e'

  get_elem-combine_rest :
      (f : R → R → R) (xs ys : List R) (p : ℕ) {x y : R}
      → get_elem? xs (suc p) ≡ some x
      → get_elem? ys (suc p) ≡ some y
      → get_elem? (combine_rest f xs ys) (suc p) ≡ some (f x y)
  unfolding combine_rest
  get_elem-combine_rest f [] ys p e e' = absurd (none-some e)
  get_elem-combine_rest f (x ∷ xs) [] p e e' = absurd (none-some e')
  get_elem-combine_rest f (x ∷ xs) (y ∷ ys) p e e' = get_elem-combine f xs ys p e e'

  get_elem-map :
      (f : R → R) (xs : List R) (p : ℕ) {x : R}
      → get_elem? xs p ≡ some x
      → get_elem? (map f xs) p ≡ some (f x)
  get_elem-map f [] p e = absurd (none-some e)
  get_elem-map f (x ∷ xs) zero e = cc
  get_elem-map f (x ∷ xs) (suc p) e = get_elem-map f xs p e

  get_elem-map_rest :
      (f : R → R) (xs : List R) (p : ℕ) {x : R}
      → get_elem? xs (suc p) ≡ some x
      → get_elem? (map_rest f xs) (suc p) ≡ some (f x)
  unfolding map_rest
  get_elem-map_rest f [] p e = absurd (none-some e)
  get_elem-map_rest f (x ∷ xs) p e = get_elem-map f xs p e

  -- The dealer's entries for the party `p` are the party's share.
  record Agrees (t : TpShare R) (p : ℕ) (x : AuthAddShare R) : Type ℓ where
    key_sh : get_elem? t.key_shs p ≡ some x.key_sh
    value : get_elem? t.values p ≡ some x.value
    tag : get_elem? t.tags p ≡ some x.tag

  get_aas-Agrees :
      (t : TpShare R) (p : ℕ) {x : AuthAddShare R} → get_aas t p ≡ some x → Agrees t p x
  unfolding get_aas
  get_aas-Agrees t p {x} e = record {
    key_sh = ground arith;
    value = ground arith;
    tag = ground arith;
  }

  Agrees-get_aas :
      (t : TpShare R) (p : ℕ) {x : AuthAddShare R} → Agrees t p x → get_aas t p ≡ some x
  unfolding get_aas
  Agrees-get_aas t p h = rw (h.key_sh, h.value, h.tag, get_aas) refl

  plus-Agrees :
      (t u : TpShare R) (p : ℕ) {x y : AuthAddShare R}
      → Agrees t (suc p) x
      → Agrees u (suc p) y
      → Agrees (tp_plus t u) (suc p) (plus x y)
  unfolding tp_plus plus
  plus-Agrees t u p h g = record {
    key_sh = get_elem-combine_rest (λ a b. b) t.key_shs u.key_shs p h.key_sh g.key_sh;
    value = get_elem-combine_rest (λ a b. a ⊕ b) t.values u.values p h.value g.value;
    tag = get_elem-combine_rest (λ a b. a ⊕ b) t.tags u.tags p h.tag g.tag;
  }

  times-Agrees :
      (t : TpShare R) (c : R) (p : ℕ) {x : AuthAddShare R}
      → Agrees t (suc p) x
      → Agrees (tp_times t c) (suc p) (times x c)
  unfolding tp_times times
  times-Agrees t c p h = record {
    key_sh = h.key_sh;
    value = get_elem-map_rest (λ a. a ⊗ c) t.values p h.value;
    tag = get_elem-map_rest (λ a. a ⊗ c) t.tags p h.tag;
  }

  -- When the dealer's sharings give a party (from 1 on) its shares `x` and `y`, the dealer's sum,
  -- multiple and difference give it the sum, the multiple and the difference that the party
  -- computes from `x` and `y` itself.
  pub dealer_follows :
      (t u : TpShare R) (c : R) (p : ℕ) {x y : AuthAddShare R}
      → get_aas t (suc p) ≡ some x
      → get_aas u (suc p) ≡ some y
      → (get_aas (tp_plus t u) (suc p) ≡ some (plus x y))
        × (get_aas (tp_times t c) (suc p) ≡ some (times x c))
        × (get_aas (tp_minus t u) (suc p) ≡ some (minus x y))
  unfolding tp_minus minus
  dealer_follows t u c p e e' =
      let h = get_aas-Agrees t (suc p) e in
      let g = get_aas-Agrees u (suc p) e' in
      (
        Agrees-get_aas (tp_plus t u) (suc p) (plus-Agrees t u p h g),
        Agrees-get_aas (tp_times t c) (suc p) (times-Agrees t c p h),
        Agrees-get_aas (tp_plus t (tp_times u (r.neg r.one))) (suc p)
            (plus-Agrees t (tp_times u (r.neg r.one)) p h (times-Agrees u (r.neg r.one) p g)),
      )
