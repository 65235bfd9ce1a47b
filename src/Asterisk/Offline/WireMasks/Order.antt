-- ===== src/Asterisk/Offline/WireMasks/Order.antt =====
-- The gates in the order of levels, as one sequence.
use qysnc_submission.Common.{
  ℕ, ◌≡◌, refl, sym, ◌∙◌, subst, inl, inr, Option, Option-cases, none, some, List, [], ◌∷◌, ◌++◌,
}
use qysnc_submission.Circuit.{Gate, out}
use qysnc_submission.Asterisk.Online.Round.{Slot, slot}
use qysnc_submission.Asterisk.Online.Setup.{Reads-imp}
use qysnc_submission.Asterisk.Online.Refine.{
  WithWire, Allowed, Ordered, OrderedLevels, AfterLevel, AfterLevels, AllGates, AllLevels,
}
use qysnc_submission.Asterisk.Offline.Gates.{flat}
use qysnc_submission.Asterisk.Offline.Sequence.{Written}

module _ {ℓ} {R : Type ℓ} where
  Allowed-known :
      (D0 D : ℕ → Type 0) (g : Gate R) → ((w : ℕ) → D0 w → D w) → (w : ℕ) → Allowed D0 D g w → D w
  Allowed-known D0 D g sub w h =
      let wires : Option Slot → ℕ → Type 0 = λ s. elim s [ none ↦ D | some _ ↦ D0 ] in
      elim (Option-cases (slot g)) [
        | inl e ↦ subst (λ s. wires s w) e h
        | inr e ↦ sub w (subst (λ s. wires s w) e.1 h)
      ]

  -- In the order of levels every gate reads known wires.
  Ordered-Written :
      (n : ℕ) (D0 D : ℕ → Type 0) (gs rest : List (Gate R))
      → ((w : ℕ) → D0 w → D w)
      → Ordered n D0 D gs
      → Written n (AfterLevel D gs) rest
      → Written n D (gs ++ rest)
  unfolding Ordered Written
  Ordered-Written n D0 D [] rest sub h wr = wr
  Ordered-Written n D0 D (g ∷ gs) rest sub (rd, new, lt, h) wr = (
    Reads-imp (Allowed D0 D g) D g (Allowed-known D0 D g sub) rd,
    new,
    lt,
    Ordered-Written n D0 (WithWire D (out g)) gs rest (λ w d. inl (sub w d)) h wr,
  )

  pub OrderedLevels-Written :
      (n : ℕ) (D : ℕ → Type 0) (levels : List (List (Gate R)))
      → OrderedLevels n D levels
      → Written n D (flat levels)
  unfolding OrderedLevels Written
  OrderedLevels-Written n D [] h = h
  OrderedLevels-Written n D (gs ∷ levels) (here, h) =
      Ordered-Written n D D gs (flat levels) (λ w d. d) here
        (OrderedLevels-Written n (AfterLevel D gs) levels h)

  AfterLevel-append :
      (D : ℕ → Type 0) (gs rest : List (Gate R))
      → AfterLevel D (gs ++ rest) ≡ AfterLevel (AfterLevel D gs) rest
  AfterLevel-append D [] rest = refl
  AfterLevel-append D (g ∷ gs) rest = AfterLevel-append (WithWire D (out g)) gs rest

  pub AfterLevels-flat :
      (D : ℕ → Type 0) (levels : List (List (Gate R)))
      → AfterLevels D levels ≡ AfterLevel D (flat levels)
  AfterLevels-flat D [] = refl
  AfterLevels-flat D (gs ∷ levels) =
      AfterLevels-flat (AfterLevel D gs) levels ∙ sym (AfterLevel-append D gs (flat levels))

  AllGates-append :
      (P : Gate R → Type ℓ) (gs rest : List (Gate R))
      → AllGates P gs
      → AllGates P rest
      → AllGates P (gs ++ rest)
  AllGates-append P [] rest h h' = h'
  AllGates-append P (g ∷ gs) rest (here, h) h' = (here, AllGates-append P gs rest h h')

  AllGates-parts :
      (P : Gate R → Type ℓ) (gs rest : List (Gate R))
      → AllGates P (gs ++ rest)
      → AllGates P gs × AllGates P rest
  AllGates-parts P [] rest h = (record { lower = tt }, h)
  AllGates-parts P (g ∷ gs) rest (here, h) =
      let both = AllGates-parts P gs rest h in ((here, both.0), both.1)

  pub AllLevels-flat :
      (P : Gate R → Type ℓ) (levels : List (List (Gate R)))
      → AllLevels P levels
      → AllGates P (flat levels)
  AllLevels-flat P [] h = h
  AllLevels-flat P (gs ∷ levels) (here, h) =
      AllGates-append P gs (flat levels) here (AllLevels-flat P levels h)

  pub flat-AllLevels :
      (P : Gate R → Type ℓ) (levels : List (List (Gate R)))
      → AllGates P (flat levels)
      → AllLevels P levels
  flat-AllLevels P [] h = h
  flat-AllLevels P (gs ∷ levels) h =
      let both = AllGates-parts P gs (flat levels) h in (both.0, flat-AllLevels P levels both.1)
