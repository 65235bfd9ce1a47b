-- ===== src/Asterisk/Offline/Keeps.antt =====
-- A gate of `setWireMasksParty` writes the entry of its own output, and no other.
use qysnc_submission.Common.{
  ℕ, ◌≡◌, ◌≢◌, refl, sym, ◌∙◌, ap, ◌⊎◌, inl, inr, List, [], ◌∷◌, length, get_or, set, length-set,
  get_or-set_ne,
}
use qysnc_submission.Ring.{CommRing}
use qysnc_submission.Circuit.{
  inp, add, mul, mul3, mul4, sub, const_add, const_mul, dotprod, Gate, gate, fin2, fin3, fin4, simd,
  const_op, out,
}
use qysnc_submission.Asterisk.{PreprocGate}
use qysnc_submission.Asterisk.Offline.Role.{Role, tp_role, party_role}
use qysnc_submission.Asterisk.Offline.Gates.{prepare_gate}
use qysnc_submission.Asterisk.Offline.Calls.Owner.{with_party-preproc}

-- The calls leave the gates alone.
pub record Keeps {ℓ σ} {R X : Type ℓ} {S : Type σ} (role : Role R X S) : Type (ℓ ⊔ σ) where
  pub share : (s : S) → role.preproc (role.share s).1 ≡ role.preproc s
  pub share_secret : (v : R) (s : S) → role.preproc (role.share_secret v s).1 ≡ role.preproc s
  pub share_with_party :
      (i : ℕ) (s : S) → role.preproc (role.share_with_party i s).1 ≡ role.preproc s
  pub put :
      (o : ℕ) (g : PreprocGate R X) (s : S)
      → role.preproc (role.put o g s) ≡ set (role.preproc s) o g

module _ {ℓ σ} {R X : Type ℓ} {S : Type σ} (role : Role R X S) where
  -- `randomShareSecret` of each of the values.
  abbrev pub products : List R → S → List X × S
  products [] s = ([], s)
  products (v ∷ vs) s =
      let call = role.share_secret v s in let rest = products vs call.1 in (call.0 ∷ rest.0, rest.1)

  pub products_keep :
      Keeps role → (vs : List R) (s : S) → role.preproc (products vs s).1 ≡ role.preproc s
  products_keep h [] s = refl
  products_keep h (v ∷ vs) s = products_keep h vs (role.share_secret v s).1 ∙ h.share_secret v s

  -- What a gate does to the gates: one entry is new, or nothing is.
  abbrev Writes : List (PreprocGate R X) → ℕ → List (PreprocGate R X) → Type ℓ
  Writes xs o ys = ((g : PreprocGate R X) × (ys ≡ set xs o g)) ⊎ (ys ≡ xs)

  store_after :
      Keeps role
      → (o : ℕ) (s s' : S) (g : PreprocGate R X) → role.preproc s' ≡ role.preproc s
      → Writes (role.preproc s) o (role.preproc (role.put o g s'))
  store_after h o s s' g e = inl (g, h.put o g s' ∙ ap (λ xs. set xs o g) e)

  product_after :
      Keeps role
      → (o : ℕ) (s : S) (vs : List R) (g : PreprocGate R X)
      → Writes (role.preproc s) o (role.preproc (role.put o g (products vs (role.share s).1).1))
  product_after h o s vs g =
      store_after h o s (products vs (role.share s).1).1 g
        (products_keep h vs (role.share s).1 ∙ h.share s)

module _ {ℓ σ} {R X : Type ℓ} {S : Type σ} ⦃r : CommRing R⦄ (role : Role R X S)
    (pid_of : ℕ → ℕ) where
  prepare_gate-Writes :
      Keeps role
      → (g : Gate R) (s : S)
      → Writes role (role.preproc s) (out g) (role.preproc (prepare_gate role pid_of g s).1)
  unfolding prepare_gate out
  prepare_gate-Writes h (gate inp o) s =
      store_after role h o s (role.share_with_party (pid_of o) s).1 _
        (h.share_with_party (pid_of o) s)
  prepare_gate-Writes h (fin2 add a b o) s = store_after role h o s s _ refl
  prepare_gate-Writes h (const_op const_add a c o) s = store_after role h o s s _ refl
  prepare_gate-Writes h (const_op const_mul a c o) s = store_after role h o s s _ refl
  prepare_gate-Writes h (fin2 sub a b o) s = store_after role h o s s _ refl
  prepare_gate-Writes h (fin2 mul a b o) s = product_after role h o s (_ ∷ []) _
  prepare_gate-Writes h (fin3 mul3 a b c o) s = product_after role h o s (_ ∷ _ ∷ _ ∷ _ ∷ []) _
  prepare_gate-Writes h (fin4 mul4 a b c d o) s =
      product_after role h o s (_ ∷ _ ∷ _ ∷ _ ∷ _ ∷ _ ∷ _ ∷ _ ∷ _ ∷ _ ∷ _ ∷ []) _
  prepare_gate-Writes h (simd dotprod in1 in2 o) s = product_after role h o s (_ ∷ []) _
  prepare_gate-Writes h _ s = inr refl

  pub prepare_gate-get_or :
      Keeps role
      → (g : Gate R) (s : S) (w : ℕ) (x : PreprocGate R X) → w ≢ out g
      → get_or (role.preproc (prepare_gate role pid_of g s).1) w x ≡ get_or (role.preproc s) w x
  prepare_gate-get_or h g s w x ne = elim (prepare_gate-Writes h g s) [
    | inl e ↦
        ap (λ xs. get_or xs w x) e.1
        ∙ get_or-set_ne (role.preproc s) (out g) w e.0 x (λ e'. ne (sym e'))
    | inr e ↦ ap (λ xs. get_or xs w x) e
  ]

  pub length-prepare_gate :
      Keeps role
      → (g : Gate R) (s : S)
      → length (role.preproc (prepare_gate role pid_of g s).1) ≡ length (role.preproc s)
  length-prepare_gate h g s = elim (prepare_gate-Writes h g s) [
    | inl e ↦ ap length e.1 ∙ length-set (role.preproc s) (out g) e.0
    | inr e ↦ ap length e
  ]

module _ {ℓ κ} {R : Type ℓ} {G : Type κ} ⦃r : CommRing R⦄ (randomize : G → R × G) where
  pub tp_role-Keeps : Keeps (tp_role randomize)
  unfolding tp_role
  tp_role-Keeps = record {
    share = λ s. refl;
    share_secret = λ v s. refl;
    share_with_party = λ i s. with_party-preproc randomize i s;
    put = λ o g s. refl;
  }

  pub party_role-Keeps : (nP : ℕ) → Keeps (party_role randomize nP)
  unfolding party_role
  party_role-Keeps nP = record {
    share = λ s. refl;
    share_secret = λ v s. refl;
    share_with_party = λ i s. refl;
    put = λ o g s. refl;
  }
