-- ===== src/Asterisk/Shared.antt =====
-- A value shared among the parties of the online phase under one key, and what the linear steps
-- on the shares make of it.
use qysnc_submission.Common.{
  ℕ, suc, subst, ◌≤◌, ◌≡◌, refl, sym, ◌∙◌, ap, ap₂, List, [], ◌∷◌, map, length, arith,
}
use mathlib.Core.Logic.{Lift}
use qysnc_submission.Ring.{CommRing, ◌⊕◌, ◌⊗◌, ◌⊖◌}
use qysnc_submission.Ring.Laws.{mul-neg-one}
use qysnc_submission.Sharing.{AuthAddShare, plus, times, minus, add_const, add_with_adder}
use qysnc_submission.Sharing.Mac.{
  value_of, key_of, IsAuthentic, plus_all, times_all, add_all, plus_all-IsAuthentic,
  times_all-IsAuthentic, add_all-IsAuthentic, key-plus_all, key-times_all, key-add_all,
  add_const-add_with_adder,
}
use qysnc_submission.Asterisk.{Party}

module _ {ℓ} {R : Type ℓ} ⦃r : CommRing R⦄ where
  -- The parties' ids are `n`, `n + 1` and so on.
  abbrev pub Numbered : ℕ → List (Party R) → Type 0
  Numbered n [] = Unit
  Numbered n (p ∷ ps) = (p.id ≡ n) × Numbered (suc n) ps

  abbrev pub Everyone : (Party R → Type ℓ) → List (Party R) → Type ℓ
  Everyone P [] = Lift {0, ℓ} Unit
  Everyone P (p ∷ ps) = P p × Everyone P ps

  -- Every party's wires are `ws`.
  abbrev pub Agreed : List R → List (Party R) → Type ℓ
  Agreed ws ps = Everyone (λ p. p.wires ≡ ws) ps

  -- The shares stand for the value `v` under the key `k`, and their tags are right.
  pub record IsSharing (xs : List (AuthAddShare R)) (k v : R) : Type ℓ where
    pub key : key_of xs ≡ k
    pub authentic : IsAuthentic xs
    pub value : value_of xs ≡ v

  -- The parties' shares `f` stand for `v`.
  pub record Shared (ps : List (Party R)) (k : R) (f : Party R → AuthAddShare R) (v : R)
      : Type ℓ where
    pub shares : IsSharing (map f ps) k v

  module _ (ps : List (Party R)) (k : R) where
    length-map : (f : Party R → AuthAddShare R) → length (map f ps) ≡ length ps
    length-map f = along ps
      where
        along : (qs : List (Party R)) → length (map f qs) ≡ length qs
        along [] = refl
        along (q ∷ qs) = ap suc (along qs)

    length-map_same : (f g : Party R → AuthAddShare R) → length (map f ps) ≡ length (map g ps)
    length-map_same f g = length-map f ∙ sym (length-map g)

    map-plus :
        (f g : Party R → AuthAddShare R)
        → map (λ p. plus (f p) (g p)) ps ≡ plus_all (map f ps) (map g ps)
    map-plus f g = along ps
      where
        along :
            (qs : List (Party R)) → map (λ p. plus (f p) (g p)) qs ≡ plus_all (map f qs) (map g qs)
        along [] = refl
        along (q ∷ qs) = ap (◌∷◌ (plus (f q) (g q))) (along qs)

    map-times :
        (f : Party R → AuthAddShare R) (c : R)
        → map (λ p. times (f p) c) ps ≡ times_all (map f ps) c
    map-times f c = along ps
      where
        along : (qs : List (Party R)) → map (λ p. times (f p) c) qs ≡ times_all (map f qs) c
        along [] = refl
        along (q ∷ qs) = ap (◌∷◌ (times (f q) c)) (along qs)

    map-add_const :
        (n : ℕ) (f : Party R → AuthAddShare R) (c : R)
        → Numbered n ps
        → map (λ p. add_const (f p) c p.id) ps ≡ add_all n (map f ps) c 1
    map-add_const n f c = along ps n
      where
        along :
            (qs : List (Party R)) (n : ℕ)
            → Numbered n qs
            → map (λ p. add_const (f p) c p.id) qs ≡ add_all n (map f qs) c 1
        along [] n h = refl
        along (q ∷ qs) n (e, h) =
            ap₂ ◌∷◌ (add_const-add_with_adder (f q) c q.id ∙ ap (λ i. add_with_adder (f q) c i 1) e)
              (along qs (suc n) h)

    pub Shared-plus :
        {f g : Party R → AuthAddShare R} {v w : R}
        → Shared ps k f v
        → Shared ps k g w
        → Shared ps k (λ p. plus (f p) (g p)) (v ⊕ w)
    Shared-plus {f} {g} {v} {w} h h' =
        let a = h.shares in
        let b = h'.shares in
        let e = length-map_same f g in
        let both =
          plus_all-IsAuthentic (map f ps) (map g ps) e (a.key ∙ sym b.key) a.authentic
            b.authentic in
        let added : IsSharing (plus_all (map f ps) (map g ps)) k (v ⊕ w) = record {
          key = key-plus_all (map f ps) (map g ps) e ∙ b.key;
          authentic = both.0;
          value = both.1 ∙ ap₂ ◌⊕◌ a.value b.value;
        } in
        record { shares = subst (λ xs. IsSharing xs k (v ⊕ w)) (sym (map-plus f g)) added }

    pub Shared-times :
        {f : Party R → AuthAddShare R} {v : R} (c : R)
        → Shared ps k f v
        → Shared ps k (λ p. times (f p) c) (v ⊗ c)
    Shared-times {f} {v} c h =
        let a = h.shares in
        let both = times_all-IsAuthentic (map f ps) c a.authentic in
        let scaled : IsSharing (times_all (map f ps) c) k (v ⊗ c) = record {
          key = key-times_all (map f ps) c ∙ a.key;
          authentic = both.0;
          value = both.1 ∙ ap (λ x. x ⊗ c) a.value;
        } in
        record { shares = subst (λ xs. IsSharing xs k (v ⊗ c)) (sym (map-times f c)) scaled }

    pub Shared-minus :
        {f g : Party R → AuthAddShare R} {v w : R}
        → Shared ps k f v
        → Shared ps k g w
        → Shared ps k (λ p. minus (f p) (g p)) (v ⊖ w)
    unfolding minus
    Shared-minus {f} {g} {v} {w} h h' =
        subst (λ x. Shared ps k (λ p. minus (f p) (g p)) (v ⊕ x)) (mul-neg-one w)
          (Shared-plus h (Shared-times (r.neg r.one) h'))

    -- Party 1 adds the constant.
    pub Shared-add_const :
        {f : Party R → AuthAddShare R} {v : R} (c : R)
        → Numbered 1 ps
        → 1 ≤ length ps
        → Shared ps k f v
        → Shared ps k (λ p. add_const (f p) c p.id) (v ⊕ c)
    Shared-add_const {f} {v} c ids some_party h =
        let a = h.shares in
        let le : 1 ≤ length (map f ps) = omega (arith, length-map f) in
        let both = add_all-IsAuthentic (map f ps) c 1 (omega arith) le a.authentic in
        let added : IsSharing (add_all 1 (map f ps) c 1) k (v ⊕ c) = record {
          key = key-add_all 1 (map f ps) c 1 ∙ a.key;
          authentic = both.0;
          value = both.1 ∙ ap (λ x. x ⊕ c) a.value;
        } in
        record {
          shares = subst (λ xs. IsSharing xs k (v ⊕ c)) (sym (map-add_const 1 f c ids)) added;
        }

    -- Two ways to compute the shares, which are one at every party.
    pub Shared-Everyone :
        (f g : Party R → AuthAddShare R) {v : R}
        → Everyone (λ p. f p ≡ g p) ps
        → Shared ps k g v
        → Shared ps k f v
    Shared-Everyone f g {v} e h = record {
      shares = subst (λ xs. IsSharing xs k v) (sym (along ps e)) h.shares;
    }
      where
        along : (qs : List (Party R)) → Everyone (λ p. f p ≡ g p) qs → map f qs ≡ map g qs
        along [] h = refl
        along (q ∷ qs) (here, h) = ap₂ ◌∷◌ here (along qs h)

  pub Everyone-imp :
      (P Q : Party R → Type ℓ)
      → ((p : Party R) → P p → Q p)
      → (ps : List (Party R)) → Everyone P ps
      → Everyone Q ps
  Everyone-imp P Q f [] h = record { lower = tt }
  Everyone-imp P Q f (p ∷ ps) (here, h) = (f p here, Everyone-imp P Q f ps h)

  pub Shared-Agreed :
      (ps : List (Party R)) (k : R) (ws : List R) (f g : Party R → AuthAddShare R) {v : R}
      → Agreed ws ps
      → ((p : Party R) → p.wires ≡ ws → f p ≡ g p)
      → Shared ps k g v
      → Shared ps k f v
  Shared-Agreed ps k ws f g agreed e h =
      Shared-Everyone ps k f g (Everyone-imp (λ p. p.wires ≡ ws) (λ p. f p ≡ g p) e ps agreed) h
