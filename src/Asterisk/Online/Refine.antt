-- ===== src/Asterisk/Online/Refine.antt =====
-- The rounds follow the plain evaluation of the circuit: every wire holds the plain value plus the
-- wire's mask.
pub mod Step
use qysnc_submission.Common.{
  ℕ, zero, suc, ◌<◌, ◌≡◌, ◌≢◌, refl, sym, ◌∙◌, ap, ap₂, subst, ◌⊎◌, inl, inr, Option, none, some,
  List, [], ◌∷◌, length, get_or, set, arith, length-set, get_or-set_self, get_or-set_ne,
}
use mathlib.Core.Logic.{Lift}
use qysnc_submission.Common.Map.{nat_eq, lookup}
use qysnc_submission.Ring.{CommRing, ◌⊕◌, ◌⊗◌, ◌⊖◌}
use qysnc_submission.Ring.Laws.{add-mul, add_interchange}
use qysnc_submission.Ring.Solve.{var, sum, difference, eval-normal_form}
use qysnc_submission.Circuit.{
  inp, add, mul, mul3, mul4, sub, const_add, const_mul, dotprod, Gate, gate, fin2, fin3, fin4, fin1,
  simd, const_op, out,
}
use qysnc_submission.Circuit.Evaluate.{
  Representation, Evaluated, evaluated, add_products, eval_gate, eval_level,
}
use qysnc_submission.Asterisk.{Party}
use qysnc_submission.Asterisk.Online.Products.{dot_product}
use qysnc_submission.Asterisk.Online.Round.{Slot, slot, linear_gate}
use qysnc_submission.Asterisk.Online.Round.Deliver.{recv_wires}
use qysnc_submission.Asterisk.Online.Setup.{AllOf, Reads, Prepared, plain_product}

-- A set of wires with one more.
abbrev pub WithWire : (ℕ → Type 0) → ℕ → ℕ → Type 0
WithWire D o w = D w ⊎ (w ≡ o)

module _ {ℓ} {R : Type ℓ} where
  -- The wires that a gate may read: those of the levels before if its shares are exchanged, else
  -- also those of the gates before it on its level.
  abbrev pub Allowed : (ℕ → Type 0) → (ℕ → Type 0) → Gate R → ℕ → Type 0
  Allowed D0 D g = elim (slot g) [ none ↦ D | some s ↦ D0 ]

  -- The gates of a level, with `n` wires in all: each writes a new wire. `D0` are the wires of the
  -- levels before, `D` those known so far.
  unfoldable pub Ordered : ℕ → (ℕ → Type 0) → (ℕ → Type 0) → List (Gate R) → Type 0
  Ordered n D0 D [] = Unit
  Ordered n D0 D (g ∷ gs) =
      Reads (Allowed D0 D g) g
      × (D (out g) → ⊥)
      × (out g < n)
      × Ordered n D0 (WithWire D (out g)) gs

  abbrev pub AfterLevel : (ℕ → Type 0) → List (Gate R) → ℕ → Type 0
  AfterLevel D [] = D
  AfterLevel D (g ∷ gs) = AfterLevel (WithWire D (out g)) gs

  unfoldable pub OrderedLevels : ℕ → (ℕ → Type 0) → List (List (Gate R)) → Type 0
  unfolding Ordered
  OrderedLevels n D [] = Unit
  OrderedLevels n D (gs ∷ levels) = Ordered n D D gs × OrderedLevels n (AfterLevel D gs) levels

  abbrev pub AfterLevels : (ℕ → Type 0) → List (List (Gate R)) → ℕ → Type 0
  AfterLevels D [] = D
  AfterLevels D (gs ∷ levels) = AfterLevels (AfterLevel D gs) levels

  pub AfterLevel-below :
      (n : ℕ) (D0 D : ℕ → Type 0) (gs : List (Gate R))
      → ((w : ℕ) → D w → w < n)
      → Ordered n D0 D gs
      → (w : ℕ) → AfterLevel D gs w
      → w < n
  unfolding Ordered
  AfterLevel-below n D0 D [] below o w h = below w h
  AfterLevel-below n D0 D (g ∷ gs) below (rd, new, lt, o) w h =
      AfterLevel-below n D0 (WithWire D (out g)) gs
        (λ v dv. elim dv [ inl d ↦ below v d | inr e ↦ subst (λ z. z < n) (sym e) lt ]) o w h

  abbrev pub AllGates : (Gate R → Type ℓ) → List (Gate R) → Type ℓ
  AllGates P [] = Lift {0, ℓ} Unit
  AllGates P (g ∷ gs) = P g × AllGates P gs

  abbrev pub AllLevels : (Gate R → Type ℓ) → List (List (Gate R)) → Type ℓ
  AllLevels P [] = Lift {0, ℓ} Unit
  AllLevels P (gs ∷ levels) = AllGates P gs × AllLevels P levels

  -- The gate's sum of shares `f g` is the mask plus the product of the plain values.
  abbrev pub Opens : ⦃r : CommRing R⦄ → (ℕ → R) → List R → (Gate R → R) → Gate R → Type ℓ
  Opens ⦃r⦄ d vw0 f g =
      (s : Slot) → slot g ≡ some s → f g ≡ d (out g) ⊕ plain_product (λ w. get_or vw0 w r.zero) g

module _ {ℓ} {R : Type ℓ} ⦃r : CommRing R⦄ (n : ℕ) (d : ℕ → R) (init : List R) where
  -- An input gate's wire was set, in `init`, to the input plus the mask.
  unfoldable pub InputSet : List (ℕ × R) → Gate R → Type ℓ
  InputSet inputs (gate inp o) =
      (x : R) × (lookup o inputs ≡ some x) × (get_or init o r.zero ≡ x ⊕ d o)
  InputSet inputs _ = Lift {0, ℓ} Unit

  -- Plain wires `vw` and masked wires `mw`, on a level that began with the plain wires `vw0`.
  pub record Follows (D0 D : ℕ → Type 0) (vw0 vw mw : List R) : Type ℓ where
    pub masked : (w : ℕ) → D w → get_or mw w r.zero ≡ get_or vw w r.zero ⊕ d w
    pub known : (w : ℕ) → D0 w → D w
    pub stays : (w : ℕ) → D0 w → get_or vw w r.zero ≡ get_or vw0 w r.zero
    pub fresh : (w : ℕ) → (D w → ⊥) → get_or vw w r.zero ≡ r.zero
    pub kept : (w : ℕ) → (D w → ⊥) → get_or mw w r.zero ≡ get_or init w r.zero
    pub plain_size : length vw ≡ n
    pub masked_size : length mw ≡ n

  module _ {D0 D : ℕ → Type 0} {vw0 vw mw : List R} where
    -- One more wire, with the plain value `x`.
    Follows-put :
        (o : ℕ) (x : R) (mw' : List R)
        → Follows D0 D vw0 vw mw
        → (D o → ⊥)
        → o < n
        → ((w : ℕ) → w ≢ o → get_or mw' w r.zero ≡ get_or mw w r.zero)
        → get_or mw' o r.zero ≡ x ⊕ d o
        → length mw' ≡ n
        → Follows D0 (WithWire D o) vw0 (set vw o x) mw'
    Follows-put o x mw' h new lt others here size =
        let self : get_or (set vw o x) o r.zero ≡ x =
          get_or-set_self vw o x r.zero (subst (λ k. o < k) (sym h.plain_size) lt) in
        let other : (w : ℕ) → w ≢ o → get_or (set vw o x) w r.zero ≡ get_or vw w r.zero =
          λ w ne. get_or-set_ne vw o w x r.zero (λ e. ne (sym e)) in
        let apart : (w : ℕ) → D w → w ≢ o = λ w dw e. new (subst D e dw) in
        record {
          masked = λ w dw. elim dw [
            | inl dw' ↦
                others w (apart w dw')
                ∙ h.masked w dw'
                ∙ ap (λ z. z ⊕ d w) (sym (other w (apart w dw')))
            | inr e ↦
                ap (λ z. get_or mw' z r.zero) e
                ∙ here
                ∙ ap₂ ◌⊕◌ (sym (ap (λ z. get_or (set vw o x) z r.zero) e ∙ self)) (ap d (sym e))
          ];
          known = λ w dw. inl (h.known w dw);
          stays = λ w dw. other w (apart w (h.known w dw)) ∙ h.stays w dw;
          fresh = λ w out. other w (λ e. out (inr e)) ∙ h.fresh w (λ dw. out (inl dw));
          kept = λ w out. others w (λ e. out (inr e)) ∙ h.kept w (λ dw. out (inl dw));
          plain_size = length-set vw o x ∙ h.plain_size;
          masked_size = size;
        }

    Follows-set :
        (o : ℕ) (x y : R)
        → Follows D0 D vw0 vw mw
        → (D o → ⊥)
        → o < n
        → y ≡ x ⊕ d o
        → Follows D0 (WithWire D o) vw0 (set vw o x) (set mw o y)
    Follows-set o x y h new lt e =
        Follows-put o x (set mw o y) h new lt
          (λ w ne. get_or-set_ne mw o w y r.zero (λ e'. ne (sym e')))
          (get_or-set_self mw o y r.zero (subst (λ k. o < k) (sym h.masked_size) lt) ∙ e)
          (length-set mw o y ∙ h.masked_size)

    -- A level that is done: the next one begins.
    pub Follows-restart : Follows D0 D vw0 vw mw → Follows D D vw vw mw
    Follows-restart h = record {
      masked = h.masked;
      known = λ w dw. dw;
      stays = λ w dw. refl;
      fresh = h.fresh;
      kept = h.kept;
      plain_size = h.plain_size;
      masked_size = h.masked_size;
    }
