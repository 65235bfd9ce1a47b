-- ===== src/Asterisk/Online/Verify/Sum.antt =====
-- What the parties' sums of `MACVerification` come to.
use qysnc_submission.Common.{
  ℕ, zero, suc, ◌≡◌, refl, sym, ◌∙◌, ap, ap₂, fun_ext, inl, inr, Option-cases, none, some, Bool,
  true, List, [], ◌∷◌, map, get_or,
}
use mathlib.Core.Logic.{Lift}
use qysnc_submission.Ring.{CommRing, ◌⊕◌, ◌⊗◌, ◌⊖◌}
use qysnc_submission.Ring.Laws.{
  total, mul-zero, add-zero, add-mul, add_interchange, neg-zero, add-neg,
}
use qysnc_submission.Ring.Solve.{var, sum, difference, product, eval-normal_form}
use qysnc_submission.Circuit.{Gate, out}
use qysnc_submission.Asterisk.{Party, Checks, no_share, mask_at}
use qysnc_submission.Asterisk.Online.Round.{Slot, slot}
use qysnc_submission.Asterisk.Online.Refine.{AllGates, AllLevels}
use qysnc_submission.Asterisk.Online.Verify.{
  repeats, add_term, combine_gates, combine_levels, party_omega, add_omegas, mac_verification,
}

module _ {ℓ} {R : Type ℓ} ⦃r : CommRing R⦄ where
  -- The states' key shares, and what they have for the wire `o`.
  abbrev pub key_of_state : Party R × Checks R → R
  key_of_state (p, checks) = (mask_at p 0).key_sh

  abbrev pub val_at : ℕ → Party R × Checks R → R
  val_at o (p, checks) = get_or checks.q_val o r.zero

  abbrev pub tag_at : ℕ → Party R × Checks R → R
  tag_at o (p, checks) = (get_or checks.q_sh o no_share).tag

  abbrev pub Opened : ℕ → R → List (Party R × Checks R) → Type ℓ
  Opened o q [] = Lift {0, ℓ} Unit
  Opened o q (s ∷ states) = (val_at o s ≡ q) × Opened o q states

  -- A gate, if it is checked: the parties opened `q` and their tags are for `v`.
  abbrev pub IsChecked : List (Party R × Checks R) → (ℕ → R) → (ℕ → R) → Gate R → Type ℓ
  IsChecked states q v g =
      (s : Slot)
      → slot g ≡ some s
      → Opened (out g) (q (out g)) states
        × (total (map (tag_at (out g)) states) ≡ total (map key_of_state states) ⊗ v (out g))

module _ {ℓ κ} {R : Type ℓ} {G : Type κ} ⦃r : CommRing R⦄ (randomize : G → R × G) where
  -- The generator after `n` factors, and their sum.
  abbrev after : ℕ → G → G
  after zero prg = prg
  after (suc n) prg = after n (randomize prg).1

  abbrev factors : ℕ → G → R
  factors zero prg = r.zero
  factors (suc n) prg = (randomize prg).0 ⊕ factors n (randomize prg).1

  add_term-factors :
      (n : ℕ) (x : R) (prg : G) (a : R)
      → add_term randomize n x (prg, a) ≡ (after n prg, a ⊕ factors n prg ⊗ x)
  unfolding add_term
  add_term-factors zero x prg a =
      ap (λ z. (prg, z)) (sym (ap (λ z. a ⊕ z) (r.mul_comm r.zero x ∙ mul-zero x) ∙ add-zero a))
  add_term-factors (suc n) x prg a =
      let rho = (randomize prg).0 in
      let prg' = (randomize prg).1 in
      add_term-factors n x prg' (a ⊕ rho ⊗ x)
      ∙ ap (λ z. (after n prg', z))
          (r.add_assoc a (rho ⊗ x) (factors n prg' ⊗ x)
            ∙ ap (λ z. a ⊕ z) (sym (add-mul rho (factors n prg') x)))

  -- The generator after the gates, and the random linear combination of their terms.
  abbrev pub gates_after : List (Gate R) → G → G
  gates_after [] prg = prg
  gates_after (g ∷ gs) prg =
      gates_after gs (elim (slot g) [ none ↦ prg | some s ↦ after (repeats s) prg ])

  abbrev pub combination : (Gate R → R) → List (Gate R) → G → R
  combination term [] prg = r.zero
  combination term (g ∷ gs) prg =
      elim (slot g) [ none ↦ r.zero | some s ↦ factors (repeats s) prg ⊗ term g ]
      ⊕ combination term gs (elim (slot g) [ none ↦ prg | some s ↦ after (repeats s) prg ])

  combine_gates-combination :
      (term : Gate R → R) (gs : List (Gate R)) (prg : G) (a : R)
      → combine_gates randomize term gs (prg, a) ≡ (gates_after gs prg, a ⊕ combination term gs prg)
  unfolding combine_gates
  combine_gates-combination term [] prg a = ap (λ z. (prg, z)) (sym (add-zero a))
  combine_gates-combination term (g ∷ gs) prg a = elim (Option-cases (slot g)) [
    | inl e ↦
        rw (e, combine_gates, gates_after, combination)
          (combine_gates-combination term gs prg a
            ∙ ap (λ z. (gates_after gs prg, a ⊕ z)) (sym (r.zero-add (combination term gs prg))))
    | inr (s, e) ↦
        let prg' = after (repeats s) prg in
        let x = factors (repeats s) prg ⊗ term g in
        rw (e, combine_gates, gates_after, combination)
          (ap (combine_gates randomize term gs) (add_term-factors (repeats s) (term g) prg a)
            ∙ combine_gates-combination term gs prg' (a ⊕ x)
            ∙ ap (λ z. (gates_after gs prg', z)) (r.add_assoc a x (combination term gs prg')))
  ]

  abbrev pub combination_all : (Gate R → R) → List (List (Gate R)) → G → R
  combination_all term [] prg = r.zero
  combination_all term (gs ∷ levels) prg =
      combination term gs prg ⊕ combination_all term levels (gates_after gs prg)

  combine_levels-combination :
      (term : Gate R → R) (levels : List (List (Gate R))) (prg : G) (a : R)
      → (combine_levels randomize term levels (prg, a)).1 ≡ a ⊕ combination_all term levels prg
  unfolding combine_levels
  combine_levels-combination term [] prg a = sym (add-zero a)
  combine_levels-combination term (gs ∷ levels) prg a =
      ap (λ st. (combine_levels randomize term levels st).1)
        (combine_gates-combination term gs prg a)
      ∙ combine_levels-combination term levels (gates_after gs prg) (a ⊕ combination term gs prg)
      ∙ r.add_assoc a (combination term gs prg) _

  combination-sum :
      (f h : Gate R → R) (gs : List (Gate R)) (prg : G)
      → combination (λ g. f g ⊕ h g) gs prg ≡ combination f gs prg ⊕ combination h gs prg
  combination-sum f h [] prg = sym (add-zero r.zero)
  combination-sum f h (g ∷ gs) prg = elim (Option-cases (slot g)) [
    | inl e ↦
        rw (e, combination)
          (r.zero-add _
            ∙ combination-sum f h gs prg
            ∙ ap₂ ◌⊕◌ (sym (r.zero-add _)) (sym (r.zero-add _)))
    | inr (s, e) ↦
        let w = factors (repeats s) prg in
        let prg' = after (repeats s) prg in
        rw (e, combination)
          (ap₂ ◌⊕◌ (r.mul-add w (f g) (h g)) (combination-sum f h gs prg')
            ∙ add_interchange (w ⊗ f g) (w ⊗ h g) (combination f gs prg') (combination h gs prg'))
  ]

  combination_all-sum :
      (f h : Gate R → R) (levels : List (List (Gate R))) (prg : G)
      → combination_all (λ g. f g ⊕ h g) levels prg
        ≡ combination_all f levels prg ⊕ combination_all h levels prg
  combination_all-sum f h [] prg = sym (add-zero r.zero)
  combination_all-sum f h (gs ∷ levels) prg =
      ap₂ ◌⊕◌ (combination-sum f h gs prg) (combination_all-sum f h levels (gates_after gs prg))
      ∙ add_interchange (combination f gs prg) (combination h gs prg) _ _

  combination-zero : (gs : List (Gate R)) (prg : G) → combination (λ g. r.zero) gs prg ≡ r.zero
  combination-zero [] prg = refl
  combination-zero (g ∷ gs) prg = elim (Option-cases (slot g)) [
    | inl e ↦ rw (e, combination) (r.zero-add _ ∙ combination-zero gs prg)
    | inr (s, e) ↦
        rw (e, combination)
          (ap₂ ◌⊕◌ (mul-zero (factors (repeats s) prg))
              (combination-zero gs (after (repeats s) prg))
            ∙ add-zero r.zero)
  ]

  combination_all-zero :
      (levels : List (List (Gate R))) (prg : G) → combination_all (λ g. r.zero) levels prg ≡ r.zero
  combination_all-zero [] prg = refl
  combination_all-zero (gs ∷ levels) prg =
      ap₂ ◌⊕◌ (combination-zero gs prg) (combination_all-zero levels (gates_after gs prg))
      ∙ add-zero r.zero

  abbrev term_of : Party R × Checks R → Gate R → R
  term_of s g = val_at (out g) s ⊗ key_of_state s ⊖ tag_at (out g) s

  -- Only the gates that are checked matter.
  combination-same :
      (f h : Gate R → R) (gs : List (Gate R)) (prg : G)
      → AllGates (λ g. (s : Slot) → slot g ≡ some s → f g ≡ h g) gs
      → combination f gs prg ≡ combination h gs prg
  combination-same f h [] prg e = refl
  combination-same f h (g ∷ gs) prg (here, e) = elim (Option-cases (slot g)) [
    | inl none_e ↦ rw (none_e, combination) (ap (λ z. r.zero ⊕ z) (combination-same f h gs prg e))
    | inr (s, some_e) ↦
        rw (some_e, combination)
          (ap₂ (λ x y. factors (repeats s) prg ⊗ x ⊕ y) (here s some_e)
            (combination-same f h gs (after (repeats s) prg) e))
  ]

  combination_all-same :
      (f h : Gate R → R) (levels : List (List (Gate R))) (prg : G)
      → AllLevels (λ g. (s : Slot) → slot g ≡ some s → f g ≡ h g) levels
      → combination_all f levels prg ≡ combination_all h levels prg
  combination_all-same f h [] prg e = refl
  combination_all-same f h (gs ∷ levels) prg (here, e) =
      ap₂ ◌⊕◌ (combination-same f h gs prg here)
        (combination_all-same f h levels (gates_after gs prg) e)

  add_omegas-total : (res : R) (os : List R) → add_omegas res os ≡ res ⊕ total os
  unfolding add_omegas
  add_omegas-total res [] = sym (add-zero res)
  add_omegas-total res (o ∷ os) = add_omegas-total (res ⊕ o) os ∙ r.add_assoc res o (total os)

  total-party_omega :
      (levels : List (List (Gate R))) (prg : G) (states : List (Party R × Checks R))
      → total (map (party_omega randomize levels prg) states)
        ≡ combination_all (λ g. total (map (λ s. term_of s g) states)) levels prg
  unfolding party_omega
  total-party_omega levels prg [] = sym (combination_all-zero levels prg)
  total-party_omega levels prg ((p, checks) ∷ states) =
      ap₂ ◌⊕◌ (combine_levels-combination (term_of (p, checks)) levels prg r.zero ∙ r.zero-add _)
        (total-party_omega levels prg states)
      ∙ sym (combination_all-sum (term_of (p, checks)) _ levels prg)

  total-terms :
      (g : Gate R) (q : R) (states : List (Party R × Checks R))
      → Opened (out g) q states
      → total (map (λ s. term_of s g) states)
        ≡ q ⊗ total (map key_of_state states) ⊖ total (map (tag_at (out g)) states)
  total-terms g q [] h = sym (ap₂ ◌⊕◌ (mul-zero q) neg-zero ∙ add-zero r.zero)
  total-terms g q (s ∷ states) (e, h) =
      ap₂ ◌⊕◌ (ap (λ z. z ⊗ key_of_state s ⊖ tag_at (out g) s) e) (total-terms g q states h)
      ∙ regroup q (key_of_state s) (tag_at (out g) s) _ _
    where
      regroup : (q k t ks ts : R) → (q ⊗ k ⊖ t) ⊕ (q ⊗ ks ⊖ ts) ≡ q ⊗ (k ⊕ ks) ⊖ (t ⊕ ts)
      regroup q k t ks ts =
          eval-normal_form (q ∷ k ∷ t ∷ ks ∷ ts ∷ [])
            (sum (difference (product (var 0) (var 1)) (var 2))
              (difference (product (var 0) (var 3)) (var 4)))
            (difference (product (var 0) (sum (var 1) (var 3))) (sum (var 2) (var 4))) refl

  checked-same :
      (states : List (Party R × Checks R)) (q v : ℕ → R) (levels : List (List (Gate R)))
      → AllLevels (IsChecked states q v) levels
      → AllLevels
          (λ g.
            (s : Slot)
            → slot g ≡ some s
            → total (map (λ st. term_of st g) states)
              ≡ total (map key_of_state states) ⊗ (q (out g) ⊖ v (out g)))
          levels
  checked-same states q v [] h = record { lower = tt }
  checked-same states q v (gs ∷ levels) (here, h) =
      (gates gs here, checked-same states q v levels h)
    where
      factor : (k a b : R) → a ⊗ k ⊖ k ⊗ b ≡ k ⊗ (a ⊖ b)
      factor k a b =
          eval-normal_form (k ∷ a ∷ b ∷ [])
            (difference (product (var 1) (var 0)) (product (var 0) (var 2)))
            (product (var 0) (difference (var 1) (var 2))) refl

      gates :
          (gs : List (Gate R))
          → AllGates (IsChecked states q v) gs
          → AllGates
              (λ g.
                (s : Slot)
                → slot g ≡ some s
                → total (map (λ st. term_of st g) states)
                  ≡ total (map key_of_state states) ⊗ (q (out g) ⊖ v (out g)))
              gs
      gates [] h = record { lower = tt }
      gates (g ∷ gs) (one, h) = (
        λ s e.
            let (opened, tags) = one s e in
            let k = total (map key_of_state states) in
            total-terms g (q (out g)) states opened
            ∙ ap (λ t. q (out g) ⊗ k ⊖ t) tags
            ∙ factor k (q (out g)) (v (out g)),
        gates gs h,
      )

  pub mac_verification-combination :
      (is_zero : R → Bool) (levels : List (List (Gate R))) (prg : G)
      (states : List (Party R × Checks R)) (q v : ℕ → R)
      → AllLevels (IsChecked states q v) levels
      → mac_verification randomize is_zero levels prg states
        ≡ is_zero (
            combination_all
              (λ g. total (map key_of_state states) ⊗ (q (out g) ⊖ v (out g)))
              levels
              prg)
  unfolding mac_verification
  mac_verification-combination is_zero levels prg states q v checked = ap is_zero (
      add_omegas-total r.zero (map (party_omega randomize levels prg) states)
      ∙ r.zero-add _
      ∙ total-party_omega levels prg states
      ∙ combination_all-same _ _ levels prg (checked-same states q v levels checked))

  -- Where the parties opened, for each gate of the levels that is checked, the value that their tags
  -- are for, `MACVerification` accepts, with any random factors, if the test for zero accepts zero.
  pub mac_verification-accepts :
      (is_zero : R → Bool) (levels : List (List (Gate R))) (prg : G)
      (states : List (Party R × Checks R)) (v : ℕ → R)
      → is_zero r.zero ≡ true
      → AllLevels (IsChecked states v v) levels
      → mac_verification randomize is_zero levels prg states ≡ true
  mac_verification-accepts is_zero levels prg states v zero_ok checked =
      mac_verification-combination is_zero levels prg states v v checked
      ∙ ap is_zero (
          ap (λ t. combination_all t levels prg)
            (fun_ext (λ g.
              ap (λ z. total (map key_of_state states) ⊗ z) (add-neg (v (out g)))
              ∙ mul-zero (total (map key_of_state states))))
          ∙ combination_all-zero levels prg)
      ∙ zero_ok
