-- ===== src/Asterisk/Online/Refine/Step.antt =====
-- One gate of a level, in the plain evaluation and at the parties; then the gates of a level.
use qysnc_submission.Common.{
  ℕ, ◌<◌, ◌≡◌, refl, sym, ◌∙◌, ap, ap₂, none, some, List, [], ◌∷◌, get_or, set,
}
use qysnc_submission.Common.Map.{nat_eq}
use qysnc_submission.Ring.{CommRing, ◌⊕◌, ◌⊗◌, ◌⊖◌}
use qysnc_submission.Ring.Laws.{add-mul, add-zero, add_interchange}
use qysnc_submission.Ring.Solve.{var, sum, difference, eval-normal_form}
use qysnc_submission.Circuit.{
  inp, add, mul, mul3, mul4, sub, const_add, const_mul, dotprod, Gate, gate, fin2, fin3, fin4, simd,
  const_op, out,
}
use qysnc_submission.Circuit.Evaluate.{
  Representation, evaluated, add_products, eval_gate, eval_level,
}
use qysnc_submission.Asterisk.{Party}
use qysnc_submission.Asterisk.Online.Products.{dot_product}
use qysnc_submission.Asterisk.Online.Round.{slot, linear_gate}
use qysnc_submission.Asterisk.Online.Round.Deliver.{recv_wires}
use qysnc_submission.Asterisk.Online.Setup.{AllOf, Reads, Prepared}
use qysnc_submission.Asterisk.Online.Refine.{
  WithWire, Allowed, Ordered, AfterLevel, AllGates, Opens, InputSet, Follows, Follows-put,
  Follows-set,
}

module _ {ℓ} {R : Type ℓ} ⦃r : CommRing R⦄ where
  -- The value of a wire.
  abbrev pub at : List R → ℕ → R
  at ws w = get_or ws w r.zero

  sub_masks : (a u b v : R) → (a ⊕ u) ⊖ (b ⊕ v) ≡ (a ⊖ b) ⊕ (u ⊖ v)
  sub_masks a u b v =
      eval-normal_form (a ∷ u ∷ b ∷ v ∷ []) (difference (sum (var 0) (var 1)) (sum (var 2) (var 3)))
        (sum (difference (var 0) (var 2)) (difference (var 1) (var 3))) refl

  add_last : (a u c : R) → (a ⊕ u) ⊕ c ≡ (a ⊕ c) ⊕ u
  add_last a u c = r.add_assoc a u c ∙ ap (λ z. a ⊕ z) (r.add_comm u c) ∙ sym (r.add_assoc a c u)

  add_products-dot_product :
      (nn : Representation R) (in1 in2 : List ℕ) (vw : List R) (acc : R)
      → add_products nn in1 in2 vw acc ≡ acc ⊕ dot_product (at vw) in1 in2
  unfolding add_products
  add_products-dot_product nn [] in2 vw acc = sym (add-zero acc)
  add_products-dot_product nn (a ∷ in1) [] vw acc = sym (add-zero acc)
  add_products-dot_product nn (a ∷ in1) (b ∷ in2) vw acc =
      add_products-dot_product nn in1 in2 vw (acc ⊕ at vw a ⊗ at vw b)
      ∙ r.add_assoc acc (at vw a ⊗ at vw b) (dot_product (at vw) in1 in2)

  dot_product-eq :
      (P : ℕ → Type 0) (v v' : ℕ → R) (in1 in2 : List ℕ)
      → ((w : ℕ) → P w → v w ≡ v' w)
      → AllOf P in1
      → AllOf P in2
      → dot_product v in1 in2 ≡ dot_product v' in1 in2
  unfolding AllOf
  dot_product-eq P v v' [] in2 e h h' = refl
  dot_product-eq P v v' (a ∷ in1) [] e h h' = refl
  dot_product-eq P v v' (a ∷ in1) (b ∷ in2) e (ha, h) (hb, h') =
      ap₂ ◌⊕◌ (ap₂ ◌⊗◌ (e a ha) (e b hb)) (dot_product-eq P v v' in1 in2 e h h')

module _ {ℓ} {R : Type ℓ} ⦃r : CommRing R⦄ (nn : Representation R) (ps : List (Party R)) (k : R)
    (n : ℕ) (d : ℕ → R) (init : List R) (inputs : List (ℕ × R)) (vw0 : List R)
    (f : Gate R → R) where
  abbrev pub next_wires : List R → Gate R → List R
  next_wires mw g = elim (slot g) [ none ↦ linear_gate mw g | some s ↦ set mw (out g) (f g) ]

  -- The plain evaluation does the gate, and the parties' wires follow it.
  abbrev pub Done : (D0 D : ℕ → Type 0) (vw mw : List R) → Gate R → Type ℓ
  Done D0 D vw mw g =
      (vw' : List R) × (eval_gate nn inputs vw g ≡ evaluated vw')
      × Follows n d init D0 (WithWire D (out g)) vw0 vw' (next_wires mw g)

  gate-Done :
      (g : Gate R) {D0 D : ℕ → Type 0} {vw mw : List R}
      → Follows n d init D0 D vw0 vw mw
      → Reads (Allowed D0 D g) g
      → (D (out g) → ⊥)
      → out g < n
      → Prepared ps k d g
      → InputSet n d init inputs g
      → Opens d vw0 f g
      → Done D0 D vw mw g
  unfolding slot out Reads Prepared InputSet eval_gate linear_gate
  gate-Done (gate inp o) {D0} {D} {vw} {mw} h rd new lt pr (x, e, e') op = (
    set vw o x,
    rw (e, eval_gate) refl,
    Follows-put n d init o x mw h new lt (λ w ne. refl) (h.kept o new ∙ e') h.masked_size,
  )
  gate-Done (fin2 mul a b o) {vw} {mw} h (ha, hb) new lt pr is op = (
    set vw o (at vw a ⊗ at vw b),
    refl,
    Follows-set n d init o (at vw a ⊗ at vw b) (f (fin2 mul a b o)) h new lt (
        op _ refl
        ∙ r.add_comm (d o) _
        ∙ ap (λ z. z ⊕ d o) (sym (ap₂ ◌⊗◌ (h.stays a ha) (h.stays b hb)))),
  )
  gate-Done (fin3 mul3 a b c o) {vw} {mw} h (ha, hb, hc) new lt pr is op = (
    set vw o (at vw a ⊗ at vw b ⊗ at vw c),
    refl,
    Follows-set n d init o (at vw a ⊗ at vw b ⊗ at vw c) (f (fin3 mul3 a b c o)) h new lt (
        op _ refl
        ∙ r.add_comm (d o) _
        ∙ ap (λ z. z ⊕ d o) (sym (ap₂ ◌⊗◌ (ap₂ ◌⊗◌ (h.stays a ha) (h.stays b hb)) (h.stays c hc)))),
  )
  gate-Done (fin4 mul4 a b c x o) {vw} {mw} h (ha, hb, hc, hx) new lt pr is op = (
    set vw o (at vw a ⊗ at vw b ⊗ at vw c ⊗ at vw x),
    refl,
    Follows-set n d init o (at vw a ⊗ at vw b ⊗ at vw c ⊗ at vw x) (f (fin4 mul4 a b c x o)) h new
        lt
        (op _ refl
          ∙ r.add_comm (d o) _
          ∙ ap (λ z. z ⊕ d o)
              (sym (
                ap₂ ◌⊗◌ (ap₂ ◌⊗◌ (ap₂ ◌⊗◌ (h.stays a ha) (h.stays b hb)) (h.stays c hc))
                  (h.stays x hx)))),
  )
  gate-Done (simd dotprod in1 in2 o) {D0} {D} {vw} {mw} h (h1, h2) new lt pr is op =
      let x = add_products nn in1 in2 vw (at vw o) in
      let e : x ≡ dot_product (at vw0) in1 in2 =
        add_products-dot_product nn in1 in2 vw (at vw o)
        ∙ ap₂ ◌⊕◌ (h.fresh o new) (dot_product-eq D0 (at vw) (at vw0) in1 in2 h.stays h1 h2)
        ∙ r.zero-add (dot_product (at vw0) in1 in2) in
      (
        set vw o x,
        refl,
        Follows-set n d init o x (f (simd dotprod in1 in2 o)) h new lt
            (op _ refl ∙ r.add_comm (d o) _ ∙ ap (λ z. z ⊕ d o) (sym e)),
      )
  gate-Done (fin2 add a b o) {vw} {mw} h (ha, hb) new lt pr is op = (
    set vw o (at vw a ⊕ at vw b),
    refl,
    Follows-set n d init o (at vw a ⊕ at vw b) (at mw a ⊕ at mw b) h new lt (
        ap₂ ◌⊕◌ (h.masked a ha) (h.masked b hb)
        ∙ add_interchange (at vw a) (d a) (at vw b) (d b)
        ∙ ap (λ z. at vw a ⊕ at vw b ⊕ z) (sym pr)),
  )
  gate-Done (fin2 sub a b o) {vw} {mw} h (ha, hb) new lt pr is op = (
    set vw o (at vw a ⊖ at vw b),
    refl,
    Follows-set n d init o (at vw a ⊖ at vw b) (at mw a ⊖ at mw b) h new lt (
        ap₂ ◌⊖◌ (h.masked a ha) (h.masked b hb)
        ∙ sub_masks (at vw a) (d a) (at vw b) (d b)
        ∙ ap (λ z. at vw a ⊖ at vw b ⊕ z) (sym pr)),
  )
  gate-Done (const_op const_add a c o) {vw} {mw} h ha new lt pr is op = (
    set vw o (at vw a ⊕ c),
    refl,
    Follows-set n d init o (at vw a ⊕ c) (at mw a ⊕ c) h new lt (
        ap (λ z. z ⊕ c) (h.masked a ha)
        ∙ add_last (at vw a) (d a) c
        ∙ ap (λ z. at vw a ⊕ c ⊕ z) (sym pr)),
  )
  gate-Done (const_op const_mul a c o) {vw} {mw} h ha new lt pr is op = (
    set vw o (at vw a ⊗ c),
    refl,
    Follows-set n d init o (at vw a ⊗ c) (at mw a ⊗ c) h new lt (
        ap (λ z. z ⊗ c) (h.masked a ha)
        ∙ add-mul (at vw a) (d a) c
        ∙ ap (λ z. at vw a ⊗ c ⊕ z) (sym pr)),
  )
  gate-Done g h rd new lt pr is op = absurd pr.lower

  pub level-Done :
      (gs : List (Gate R)) {D0 D : ℕ → Type 0} {vw mw : List R}
      → Follows n d init D0 D vw0 vw mw
      → Ordered n D0 D gs
      → AllGates (Prepared ps k d) gs
      → AllGates (InputSet n d init inputs) gs
      → AllGates (Opens d vw0 f) gs
      → (vw' : List R) × (eval_level nn inputs vw gs ≡ evaluated vw')
        × Follows n d init D0 (AfterLevel D gs) vw0 vw' (recv_wires f gs mw)
  unfolding Ordered eval_level
  level-Done [] {vw} h o pr is op = (vw, refl, h)
  level-Done (g ∷ gs) h (rd, new, lt, o) (p, pr) (i, is) (q, op) =
      let (vw', e, h') = gate-Done g h rd new lt p i q in
      let (vw'', e', h'') = level-Done gs h' o pr is op in (vw'', rw (e, eval_level) e', h'')
