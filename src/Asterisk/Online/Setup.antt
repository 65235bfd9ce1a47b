-- ===== src/Asterisk/Online/Setup.antt =====
-- What the offline phase has to leave for the online phase, and what the parties' shares of a gate
-- come to when it has.
use qysnc_submission.Common.{
  ℕ, suc, ◌≡◌, refl, sym, ◌∙◌, ap, ap₂, subst, none, some, List, [], ◌∷◌, map, length, get_or,
}
use mathlib.Core.Logic.{Lift}
use qysnc_submission.Ring.{CommRing, ◌⊕◌, ◌⊗◌, ◌⊖◌}
use qysnc_submission.Ring.Laws.{add-zero, add-neg}
use qysnc_submission.Sharing.{AuthAddShare}
use qysnc_submission.Circuit.{
  inp, add, mul, mul3, mul4, sub, const_add, const_mul, dotprod, Gate, gate, fin2, fin3, fin4, fin1,
  simd, const_op,
}
use qysnc_submission.Asterisk.{
  PreprocGate, preproc_mult, preproc_mult3, preproc_mult4, preproc_dotp, Party, no_share,
  preproc_at, mask_at,
}
use qysnc_submission.Asterisk.Shared.{Numbered, Everyone, Agreed, IsSharing, Shared}
use qysnc_submission.Asterisk.Online.Products.{dot_product}

pub none-some {ℓ} : {A : Type ℓ} {a : A} → none ≡ some a → ⊥
none-some e = cc

-- A property of all wires that a gate reads.
unfoldable pub AllOf {κ} : (ℕ → Type κ) → List ℕ → Type κ
AllOf P [] = Lift {0, _} Unit
AllOf P (w ∷ ws) = P w × AllOf P ws

module _ {ℓ κ} {R : Type ℓ} where
  unfoldable pub Reads : (ℕ → Type κ) → Gate R → Type κ
  Reads P (gate type o) = Lift {0, κ} Unit
  Reads P (fin2 type a b o) = P a × P b
  Reads P (fin3 type a b c o) = P a × P b × P c
  Reads P (fin4 type a b c d o) = P a × P b × P c × P d
  Reads P (fin1 type a o) = P a
  Reads P (simd type in1 in2 o) = AllOf P in1 × AllOf P in2
  Reads P (const_op type a c o) = P a

pub AllOf-imp {κ κ'} :
    (P : ℕ → Type κ) (Q : ℕ → Type κ') (ws : List ℕ)
    → ((w : ℕ) → P w → Q w)
    → AllOf P ws
    → AllOf Q ws
unfolding AllOf
AllOf-imp P Q [] f h = record { lower = tt }
AllOf-imp P Q (w ∷ ws) f (here, h) = (f w here, AllOf-imp P Q ws f h)

module _ {ℓ κ κ'} {R : Type ℓ} where
  pub Reads-imp :
      (P : ℕ → Type κ) (Q : ℕ → Type κ') (g : Gate R)
      → ((w : ℕ) → P w → Q w)
      → Reads P g
      → Reads Q g
  unfolding Reads
  Reads-imp P Q (gate type o) f h = record { lower = tt }
  Reads-imp P Q (fin2 type a b o) f (ha, hb) = (f a ha, f b hb)
  Reads-imp P Q (fin3 type a b c o) f (ha, hb, hc) = (f a ha, f b hb, f c hc)
  Reads-imp P Q (fin4 type a b c e o) f (ha, hb, hc, he) = (f a ha, f b hb, f c hc, f e he)
  Reads-imp P Q (fin1 type a o) f h = f a h
  Reads-imp P Q (simd type in1 in2 o) f (h, h') = (AllOf-imp P Q in1 f h, AllOf-imp P Q in2 f h')
  Reads-imp P Q (const_op type a c o) f h = f a h

module _ {ℓ} {R : Type ℓ} ⦃r : CommRing R⦄ where
  -- The shares of a gate's preprocessed data after the mask, in the order of the constructors.
  abbrev pub parts : PreprocGate R (AuthAddShare R) → List (AuthAddShare R)
  parts (preproc_mult m ab) = ab ∷ []
  parts (preproc_mult3 m ab ac bc abc) = ab ∷ ac ∷ bc ∷ abc ∷ []
  parts (preproc_mult4 m ab ac ad bc bd cd abc abd acd bcd abcd) =
      ab ∷ ac ∷ ad ∷ bc ∷ bd ∷ cd ∷ abc ∷ abd ∷ acd ∷ bcd ∷ abcd ∷ []
  parts (preproc_dotp m ab) = ab ∷ []
  parts _ = []

  abbrev pub part_at : ℕ → ℕ → Party R → AuthAddShare R
  part_at o i p = get_or (parts (preproc_at p o)) i no_share

  abbrev pub with_wires : List R → Party R → Party R
  with_wires ws p = record p { wires = ws }

  -- The parties `ps` hold, under the key `k`, what the gate needs: `d` are the masks of the wires.
  -- A gate whose shares are exchanged has the products of its inputs' masks; a linear gate has the
  -- mask that its inputs' masks give.
  module _ (ps : List (Party R)) (k : R) (d : ℕ → R) where
    unfoldable pub Prepared : Gate R → Type ℓ
    Prepared (fin2 mul a b o) =
        Everyone (λ p. preproc_at p o ≡ preproc_mult (mask_at p o) (part_at o 0 p)) ps
        × Shared ps k (part_at o 0) (d a ⊗ d b)
    Prepared (fin3 mul3 a b c o) =
        Everyone
          (λ p.
            preproc_at p o
            ≡ preproc_mult3 (mask_at p o) (part_at o 0 p) (part_at o 1 p) (part_at o 2 p)
                (part_at o 3 p))
          ps
        × Shared ps k (part_at o 0) (d a ⊗ d b)
        × Shared ps k (part_at o 1) (d a ⊗ d c)
        × Shared ps k (part_at o 2) (d b ⊗ d c)
        × Shared ps k (part_at o 3) (d a ⊗ d b ⊗ d c)
    Prepared (fin4 mul4 a b c e o) =
        Everyone
          (λ p.
            preproc_at p o
            ≡ preproc_mult4 (mask_at p o) (part_at o 0 p) (part_at o 1 p) (part_at o 2 p)
                (part_at o 3 p) (part_at o 4 p) (part_at o 5 p) (part_at o 6 p) (part_at o 7 p)
                (part_at o 8 p) (part_at o 9 p) (part_at o 10 p))
          ps
        × Shared ps k (part_at o 0) (d a ⊗ d b)
        × Shared ps k (part_at o 1) (d a ⊗ d c)
        × Shared ps k (part_at o 2) (d a ⊗ d e)
        × Shared ps k (part_at o 3) (d b ⊗ d c)
        × Shared ps k (part_at o 4) (d b ⊗ d e)
        × Shared ps k (part_at o 5) (d c ⊗ d e)
        × Shared ps k (part_at o 6) (d a ⊗ d b ⊗ d c)
        × Shared ps k (part_at o 7) (d a ⊗ d b ⊗ d e)
        × Shared ps k (part_at o 8) (d a ⊗ d c ⊗ d e)
        × Shared ps k (part_at o 9) (d b ⊗ d c ⊗ d e)
        × Shared ps k (part_at o 10) (d a ⊗ d b ⊗ d c ⊗ d e)
    Prepared (simd dotprod in1 in2 o) =
        Everyone (λ p. preproc_at p o ≡ preproc_dotp (mask_at p o) (part_at o 0 p)) ps
        × Shared ps k (part_at o 0) (dot_product d in1 in2)
    Prepared (fin2 add a b o) = d o ≡ d a ⊕ d b
    Prepared (fin2 sub a b o) = d o ≡ d a ⊖ d b
    Prepared (const_op const_add a c o) = d o ≡ d a
    Prepared (const_op const_mul a c o) = d o ≡ d a ⊗ c
    Prepared (gate inp o) = Lift {0, ℓ} Unit
    Prepared _ = Lift {0, ℓ} ⊥

  -- The product that a gate computes from the values `v` of the wires.
  abbrev pub plain_product : (ℕ → R) → Gate R → R
  plain_product v (fin2 mul a b o) = v a ⊗ v b
  plain_product v (fin3 mul3 a b c o) = v a ⊗ v b ⊗ v c
  plain_product v (fin4 mul4 a b c e o) = v a ⊗ v b ⊗ v c ⊗ v e
  plain_product v (simd dotprod in1 in2 o) = dot_product v in1 in2
  plain_product v _ = r.zero

  pub sub-mask : (v m : R) → v ⊕ m ⊖ m ≡ v
  sub-mask v m = r.add_assoc v m (r.neg m) ∙ ap (λ z. v ⊕ z) (add-neg m) ∙ add-zero v

  -- The wires do not matter for the shares of masks.
  pub with_wires-Shared :
      (ps : List (Party R)) (k : R) (ws : List R) (f : Party R → AuthAddShare R) {v : R}
      → ((p : Party R) → f (with_wires ws p) ≡ f p)
      → Shared ps k f v
      → Shared (map (with_wires ws) ps) k f v
  with_wires-Shared ps k ws f {v} e h = record {
    shares = subst (λ xs. IsSharing xs k v) (sym (along ps)) h.shares;
  }
    where
      along : (qs : List (Party R)) → map f (map (with_wires ws) qs) ≡ map f qs
      along [] = refl
      along (q ∷ qs) = ap₂ ◌∷◌ (e q) (along qs)

  pub with_wires-Everyone :
      (P : Party R → Type ℓ) (ws : List R) (ps : List (Party R))
      → Everyone (λ p. P (with_wires ws p)) ps
      → Everyone P (map (with_wires ws) ps)
  with_wires-Everyone P ws [] h = record { lower = tt }
  with_wires-Everyone P ws (p ∷ ps) (here, h) = (here, with_wires-Everyone P ws ps h)

  pub with_wires-Agreed : (ws : List R) (ps : List (Party R)) → Agreed ws (map (with_wires ws) ps)
  with_wires-Agreed ws [] = record { lower = tt }
  with_wires-Agreed ws (p ∷ ps) = (refl, with_wires-Agreed ws ps)

  pub with_wires-Numbered :
      (ws : List R) (n : ℕ) (ps : List (Party R))
      → Numbered n ps
      → Numbered n (map (with_wires ws) ps)
  with_wires-Numbered ws n [] h = h
  with_wires-Numbered ws n (p ∷ ps) (e, h) = (e, with_wires-Numbered ws (suc n) ps h)

  pub length-with_wires :
      (ws : List R) (ps : List (Party R)) → length (map (with_wires ws) ps) ≡ length ps
  length-with_wires ws [] = refl
  length-with_wires ws (p ∷ ps) = ap suc (length-with_wires ws ps)
