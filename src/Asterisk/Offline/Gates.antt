-- ===== src/Asterisk/Offline/Gates.antt =====
-- code/src/asterisk/offline_evaluator.cpp: the gates of `setWireMasksParty`, written once for the
-- trusted party and the parties, as in the source. The cases `kEqz` and `kLtz` are left out.
use qysnc_submission.Common.{ℕ, ◌≡◌, refl, sym, ◌∙◌, List, [], ◌∷◌, ◌++◌, get_or}
use qysnc_submission.Ring.{CommRing, ◌⊕◌, ◌⊗◌}
use qysnc_submission.Circuit.{
  inp, add, mul, mul3, mul4, sub, const_add, const_mul, dotprod, Gate, gate, fin2, fin3, fin4, simd,
  const_op,
}
use qysnc_submission.Asterisk.{
  PreprocGate, preproc_gate, preproc_input, preproc_mult, preproc_mult3, preproc_mult4,
  preproc_dotp, mask,
}
use qysnc_submission.Asterisk.Offline.Role.{Role}

infixl 5 ◌>>=◌
abbrev pub ◌>>=◌ {ℓ ℓ' σ} :
    {A : Type ℓ} {B : Type ℓ'} {S : Type σ} → (S → A × S) → (A → S → B × S) → S → B × S
◌>>=◌ m f s = let (a, s') = m s in f a s'

module _ {ℓ} {A : Type ℓ} where
  -- The elements of all lists.
  abbrev pub flat : List (List A) → List A
  flat [] = []
  flat (xs ∷ xss) = xs ++ flat xss

module _ {ℓ σ} {R X : Type ℓ} {S : Type σ} ⦃r : CommRing R⦄ (role : Role R X S) where
  -- `preproc_.gates[w]->mask`, or `tpmask`.
  abbrev pub mask_of : S → ℕ → X
  mask_of s w = mask (get_or (role.preproc s) w (preproc_gate role.no_mask))

  -- The secret of a wire's mask.
  abbrev pub sec_of : S → ℕ → R
  sec_of s w = role.secret_of (mask_of s w)

  abbrev pub store : ℕ → PreprocGate R X → S → Unit {0} × S
  store o pregate s = (tt, role.put o pregate s)

  -- The loop of a `kDotprod` gate.
  unfoldable pub mask_products : S → List ℕ → List ℕ → R → R
  mask_products s (a ∷ in1) (b ∷ in2) mask_prod =
      mask_products s in1 in2 (mask_prod ⊕ sec_of s a ⊗ sec_of s b)
  mask_products s _ _ mask_prod = mask_prod

  unfoldable pub prepare_dotprod : List ℕ → List ℕ → ℕ → S → Unit {0} × S
  unfolding mask_products
  prepare_dotprod in1 in2 o s =
      let mask_prod = mask_products s in1 in2 r.zero in
      (do
        rand_mask ← role.share
        mask_product ← role.share_secret mask_prod
        store o (preproc_dotp rand_mask mask_product))
        s

  unfoldable pub prepare_mult : ℕ → ℕ → ℕ → S → Unit {0} × S
  prepare_mult in1 in2 o s =
      let tp_prod = sec_of s in1 ⊗ sec_of s in2 in
      (do
        rand_mask ← role.share
        mask_product ← role.share_secret tp_prod
        store o (preproc_mult rand_mask mask_product))
        s

  unfoldable pub prepare_mult3 : ℕ → ℕ → ℕ → ℕ → S → Unit {0} × S
  prepare_mult3 in1 in2 in3 o s =
      let a = sec_of s in1 in
      let b = sec_of s in2 in
      let c = sec_of s in3 in
      (do
        rand_mask ← role.share
        mask_ab ← role.share_secret (a ⊗ b)
        mask_ac ← role.share_secret (a ⊗ c)
        mask_bc ← role.share_secret (b ⊗ c)
        mask_abc ← role.share_secret (a ⊗ b ⊗ c)
        store o (preproc_mult3 rand_mask mask_ab mask_ac mask_bc mask_abc))
        s

  unfoldable pub prepare_mult4 : ℕ → ℕ → ℕ → ℕ → ℕ → S → Unit {0} × S
  prepare_mult4 in1 in2 in3 in4 o s =
      let a = sec_of s in1 in
      let b = sec_of s in2 in
      let c = sec_of s in3 in
      let d = sec_of s in4 in
      (do
        rand_mask ← role.share
        mask_ab ← role.share_secret (a ⊗ b)
        mask_ac ← role.share_secret (a ⊗ c)
        mask_ad ← role.share_secret (a ⊗ d)
        mask_bc ← role.share_secret (b ⊗ c)
        mask_bd ← role.share_secret (b ⊗ d)
        mask_cd ← role.share_secret (c ⊗ d)
        mask_abc ← role.share_secret (a ⊗ b ⊗ c)
        mask_abd ← role.share_secret (a ⊗ b ⊗ d)
        mask_acd ← role.share_secret (a ⊗ c ⊗ d)
        mask_bcd ← role.share_secret (b ⊗ c ⊗ d)
        mask_abcd ← role.share_secret (a ⊗ b ⊗ c ⊗ d)
        store o (
            preproc_mult4 rand_mask mask_ab mask_ac mask_ad mask_bc mask_bd mask_cd mask_abc
              mask_abd mask_acd mask_bcd mask_abcd))
        s

module _ {ℓ σ} {R X : Type ℓ} {S : Type σ} ⦃r : CommRing R⦄ (role : Role R X S)
    (pid_of : ℕ → ℕ) where
  -- One gate. `pid_of` is `input_pid_map`.
  unfoldable pub prepare_gate : Gate R → S → Unit {0} × S
  unfolding prepare_mult prepare_mult3 prepare_mult4 prepare_dotprod
  prepare_gate (gate inp o) s =
      let pid = pid_of o in
      (do drawn ← role.share_with_party pid; store role o (preproc_input drawn.0 pid drawn.1)) s
  prepare_gate (fin2 add a b o) s =
      store role o (preproc_gate (role.sum (mask_of role s a) (mask_of role s b))) s
  prepare_gate (const_op const_add a c o) s = store role o (preproc_gate (mask_of role s a)) s
  prepare_gate (const_op const_mul a c o) s =
      store role o (preproc_gate (role.multiple (mask_of role s a) c)) s
  prepare_gate (fin2 sub a b o) s =
      store role o (preproc_gate (role.difference (mask_of role s a) (mask_of role s b))) s
  prepare_gate (fin2 mul a b o) s = prepare_mult role a b o s
  prepare_gate (fin3 mul3 a b c o) s = prepare_mult3 role a b c o s
  prepare_gate (fin4 mul4 a b c d o) s = prepare_mult4 role a b c d o s
  prepare_gate (simd dotprod in1 in2 o) s = prepare_dotprod role in1 in2 o s
  prepare_gate _ s = (tt, s)

  -- The loops over the levels and their gates.
  unfoldable pub prepare_gates : List (Gate R) → S → S
  unfolding prepare_gate
  prepare_gates [] s = s
  prepare_gates (g ∷ gs) s = prepare_gates gs (prepare_gate g s).1

  unfoldable pub prepare_levels : List (List (Gate R)) → S → S
  unfolding prepare_gates
  prepare_levels [] s = s
  prepare_levels (gs ∷ levels) s = prepare_levels levels (prepare_gates gs s)

  prepare_gates-append :
      (gs rest : List (Gate R)) (s : S)
      → prepare_gates (gs ++ rest) s ≡ prepare_gates rest (prepare_gates gs s)
  unfolding prepare_gates
  prepare_gates-append [] rest s = refl
  prepare_gates-append (g ∷ gs) rest s = prepare_gates-append gs rest (prepare_gate g s).1

  -- The levels one after the other are their gates one after the other.
  pub prepare_levels-flat :
      (levels : List (List (Gate R))) (s : S)
      → prepare_levels levels s ≡ prepare_gates (flat levels) s
  unfolding prepare_levels prepare_gates
  prepare_levels-flat [] s = refl
  prepare_levels-flat (gs ∷ levels) s =
      prepare_levels-flat levels (prepare_gates gs s)
      ∙ sym (prepare_gates-append gs (flat levels) s)
