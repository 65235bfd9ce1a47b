-- ===== src/Asterisk/Online/Sends.antt =====
-- The parties' shares of a gate add up to the mask of its output plus the product of its inputs.
use qysnc_submission.Common.{
  ℕ, ◌≤◌, ◌≡◌, refl, sym, ◌∙◌, ap, ap₂, subst, some, List, [], ◌∷◌, map, length, get_or,
}
use qysnc_submission.Ring.{CommRing, ◌⊕◌, ◌⊗◌, ◌⊖◌}
use qysnc_submission.Sharing.{AuthAddShare, plus}
use qysnc_submission.Circuit.{mul, mul3, mul4, dotprod, Gate, fin2, fin3, fin4, simd, out}
use qysnc_submission.Asterisk.{
  PreprocGate, preproc_mult, preproc_mult3, preproc_mult4, preproc_dotp, Party, preproc_at, mask_at,
}
use qysnc_submission.Asterisk.Shared.{Numbered, Everyone, Everyone-imp, Shared, Shared-Everyone}
use qysnc_submission.Asterisk.Online.{
  product_share, mul_share, mul3_share, mul4_share, dotprod_loop,
}
use qysnc_submission.Asterisk.Online.Products.{
  dot_product, MasksShared, mul_share-Shared, mul3_share-Shared, mul4_share-Shared, dotprod-Shared,
}
use qysnc_submission.Asterisk.Online.Round.{Slot, slot}
use qysnc_submission.Asterisk.Online.Round.Deliver.{share_of, IsReady}
use qysnc_submission.Asterisk.Online.Setup.{
  AllOf, Reads, Prepared, plain_product, part_at, with_wires, with_wires-Shared,
  with_wires-Everyone, with_wires-Numbered, with_wires-Agreed, length-with_wires, sub-mask,
  none-some,
}

module _ {ℓ} {R : Type ℓ} ⦃r : CommRing R⦄ where
  module _ (ps : List (Party R)) (k : R) (d : ℕ → R) (ids : Numbered 1 ps)
      (some_party : 1 ≤ length ps) (ws : List R) (v : ℕ → R) where
    abbrev now : List (Party R)
    now = map (with_wires ws) ps

    -- A wire with a shared mask, which holds its value `v` plus the mask.
    abbrev pub IsMasked : ℕ → Type ℓ
    IsMasked w = Shared ps k (λ p. mask_at p w) (d w) × (get_or ws w r.zero ≡ v w ⊕ d w)

    unmasked : (w : ℕ) → IsMasked w → get_or ws w r.zero ⊖ d w ≡ v w
    unmasked w h = ap (λ z. z ⊖ d w) h.1 ∙ sub-mask (v w) (d w)

    moved :
        (f : Party R → AuthAddShare R) {x : R}
        → ((p : Party R) → f (with_wires ws p) ≡ f p)
        → Shared ps k f x
        → Shared now k f x
    moved f e h = with_wires-Shared ps k ws f e h

    mask_moved : (w : ℕ) → IsMasked w → Shared now k (λ p. mask_at p w) (d w)
    mask_moved w h = moved (λ p. mask_at p w) (λ p. refl) h.0

    masks_moved : (in1 : List ℕ) → AllOf IsMasked in1 → MasksShared now k d in1
    unfolding AllOf
    masks_moved [] h = record { lower = tt }
    masks_moved (w ∷ in1) (here, h) = (mask_moved w here, masks_moved in1 h)

    dot_product-unmasked :
        (in1 in2 : List ℕ)
        → AllOf IsMasked in1
        → AllOf IsMasked in2
        → dot_product (λ w. get_or ws w r.zero ⊖ d w) in1 in2 ≡ dot_product v in1 in2
    unfolding AllOf
    dot_product-unmasked [] in2 h h' = refl
    dot_product-unmasked (a ∷ in1) [] h h' = refl
    dot_product-unmasked (a ∷ in1) (b ∷ in2) (ha, h) (hb, h') =
        ap₂ ◌⊕◌ (ap₂ ◌⊗◌ (unmasked a ha) (unmasked b hb)) (dot_product-unmasked in1 in2 h h')

    ids_now : Numbered 1 now
    ids_now = with_wires-Numbered ws 1 ps ids

    some_now : 1 ≤ length now
    some_now = subst (λ n. 1 ≤ n) (sym (length-with_wires ws ps)) some_party

    -- What holds at every party of its preprocessed gate, whatever its wires.
    Everyone-now :
        (o : ℕ) (f : Party R → PreprocGate R (AuthAddShare R))
        → ((p : Party R) → f (with_wires ws p) ≡ f p)
        → Everyone (λ p. preproc_at p o ≡ f p) ps
        → Everyone (λ p. preproc_at p o ≡ f p) now
    Everyone-now o f e h =
        with_wires-Everyone (λ p. preproc_at p o ≡ f p) ws ps
          (Everyone-imp (λ p. preproc_at p o ≡ f p) (λ p. preproc_at p o ≡ f (with_wires ws p))
            (λ p h'. h' ∙ sym (e p)) ps h)

    -- When the preprocessed gate is `f p`, the party sends the share `q p`.
    abbrev pub Sends : Gate R → R → Type ℓ
    Sends g x = Everyone (λ p. IsReady p g) now × Shared now k (λ p. share_of p g) x

    sends :
        (g : Gate R) (q : Party R → AuthAddShare R) {x y : R}
        → Everyone (λ p. product_share p g (preproc_at p (out g)) ≡ some (q p)) now
        → Shared now k q x
        → x ≡ y
        → Sends g y
    sends g q {x} {y} e h same = (
      Everyone-imp (λ p. product_share p g (preproc_at p (out g)) ≡ some (q p)) (λ p. IsReady p g)
          (λ p h' s _. rw (h', share_of) refl) now e,
      subst (Shared now k (λ p. share_of p g)) same (
          Shared-Everyone now k (λ p. share_of p g) q
            (Everyone-imp (λ p. product_share p g (preproc_at p (out g)) ≡ some (q p))
              (λ p. share_of p g ≡ q p) (λ p h'. rw (h', share_of) refl) now e)
            h),
    )

    mul4-Sends :
        (a b c x o : ℕ)
        → Prepared ps k d (fin4 mul4 a b c x o)
        → IsMasked a × IsMasked b × IsMasked c × IsMasked x
        → Shared ps k (λ p. mask_at p o) (d o)
        → Sends (fin4 mul4 a b c x o) (d o ⊕ plain_product v (fin4 mul4 a b c x o))
    unfolding Prepared out product_share
    mul4-Sends a b c x o (here, hab, hac, had, hbc, hbd, hcd, habc, habd, hacd, hbcd, habcd)
          (ha, hb, hc, hd) hm =
        let q : Party R → AuthAddShare R = λ p.
          mul4_share p a b c x (mask_at p o) (part_at o 0 p) (part_at o 1 p) (part_at o 2 p)
            (part_at o 3 p) (part_at o 4 p) (part_at o 5 p) (part_at o 6 p) (part_at o 7 p)
            (part_at o 8 p) (part_at o 9 p) (part_at o 10 p) in
        let f : Party R → PreprocGate R (AuthAddShare R) = λ p.
          preproc_mult4 (mask_at p o) (part_at o 0 p) (part_at o 1 p) (part_at o 2 p)
            (part_at o 3 p) (part_at o 4 p) (part_at o 5 p) (part_at o 6 p) (part_at o 7 p)
            (part_at o 8 p) (part_at o 9 p) (part_at o 10 p) in
        sends (fin4 mul4 a b c x o) q
          (Everyone-imp (λ p. preproc_at p o ≡ f p)
            (λ p. product_share p (fin4 mul4 a b c x o) (preproc_at p o) ≡ some (q p))
            (λ p h. ap (product_share p (fin4 mul4 a b c x o)) h) now
            (Everyone-now o f (λ p. refl) here))
          (mul4_share-Shared now k ws ids_now some_now (with_wires-Agreed ws ps) a b c x
            (λ p. mask_at p o) (part_at o 0) (part_at o 1) (part_at o 2) (part_at o 3) (part_at o 4)
            (part_at o 5) (part_at o 6) (part_at o 7) (part_at o 8) (part_at o 9) (part_at o 10)
            (mask_moved a ha) (mask_moved b hb) (mask_moved c hc) (mask_moved x hd)
            (moved (λ p. mask_at p o) (λ p. refl) hm) (part 0 hab) (part 1 hac) (part 2 had)
            (part 3 hbc) (part 4 hbd) (part 5 hcd) (part 6 habc) (part 7 habd) (part 8 hacd)
            (part 9 hbcd) (part 10 habcd))
          (ap (λ z. d o ⊕ z)
            (ap₂ ◌⊗◌ (ap₂ ◌⊗◌ (ap₂ ◌⊗◌ (unmasked a ha) (unmasked b hb)) (unmasked c hc))
              (unmasked x hd)))
      where
        part : (i : ℕ) {y : R} → Shared ps k (part_at o i) y → Shared now k (part_at o i) y
        part i h = moved (part_at o i) (λ p. refl) h

    -- The parties' shares of a gate add up to the mask of its output plus the product of its
    -- inputs. The parties are numbered from 1 and at least one, they have the preprocessed data of the
    -- gate, the wires of its inputs hold the masked values, and the masks of the inputs and of the
    -- output are shared.
    pub gate-Sends :
        (g : Gate R) (s : Slot)
        → slot g ≡ some s
        → Prepared ps k d g
        → Reads IsMasked g
        → Shared ps k (λ p. mask_at p (out g)) (d (out g))
        → Sends g (d (out g) ⊕ plain_product v g)
    unfolding slot Prepared Reads out product_share
    gate-Sends (fin2 mul a b o) s e (here, hab) (ha, hb) hm =
        sends (fin2 mul a b o) (λ p. mul_share p a b (mask_at p o) (part_at o 0 p))
          (Everyone-imp (λ p. preproc_at p o ≡ preproc_mult (mask_at p o) (part_at o 0 p))
            (λ p.
              product_share p (fin2 mul a b o) (preproc_at p o)
              ≡ some (mul_share p a b (mask_at p o) (part_at o 0 p)))
            (λ p h. ap (product_share p (fin2 mul a b o)) h) now
            (Everyone-now o (λ p. preproc_mult (mask_at p o) (part_at o 0 p)) (λ p. refl) here))
          (mul_share-Shared now k ws ids_now some_now (with_wires-Agreed ws ps) a b
            (λ p. mask_at p o) (part_at o 0) (mask_moved a ha) (mask_moved b hb)
            (moved (λ p. mask_at p o) (λ p. refl) hm) (moved (part_at o 0) (λ p. refl) hab))
          (ap (λ z. d o ⊕ z) (ap₂ ◌⊗◌ (unmasked a ha) (unmasked b hb)))
    gate-Sends (fin3 mul3 a b c o) s e (here, hab, hac, hbc, habc) (ha, hb, hc) hm =
        let q : Party R → AuthAddShare R = λ p.
          mul3_share p a b c (mask_at p o) (part_at o 0 p) (part_at o 1 p) (part_at o 2 p)
            (part_at o 3 p) in
        let f : Party R → PreprocGate R (AuthAddShare R) = λ p.
          preproc_mult3 (mask_at p o) (part_at o 0 p) (part_at o 1 p) (part_at o 2 p)
            (part_at o 3 p) in
        sends (fin3 mul3 a b c o) q
          (Everyone-imp (λ p. preproc_at p o ≡ f p)
            (λ p. product_share p (fin3 mul3 a b c o) (preproc_at p o) ≡ some (q p))
            (λ p h. ap (product_share p (fin3 mul3 a b c o)) h) now
            (Everyone-now o f (λ p. refl) here))
          (mul3_share-Shared now k ws ids_now some_now (with_wires-Agreed ws ps) a b c
            (λ p. mask_at p o) (part_at o 0) (part_at o 1) (part_at o 2) (part_at o 3)
            (mask_moved a ha) (mask_moved b hb) (mask_moved c hc)
            (moved (λ p. mask_at p o) (λ p. refl) hm) (moved (part_at o 0) (λ p. refl) hab)
            (moved (part_at o 1) (λ p. refl) hac) (moved (part_at o 2) (λ p. refl) hbc)
            (moved (part_at o 3) (λ p. refl) habc))
          (ap (λ z. d o ⊕ z) (ap₂ ◌⊗◌ (ap₂ ◌⊗◌ (unmasked a ha) (unmasked b hb)) (unmasked c hc)))
    gate-Sends (fin4 mul4 a b c x o) s e h hr hm = mul4-Sends a b c x o h hr hm
    gate-Sends (simd dotprod in1 in2 o) s e (here, hab) (h, h') hm =
        let q : Party R → AuthAddShare R =
          λ p. dotprod_loop p in1 in2 (plus (mask_at p o) (part_at o 0 p)) in
        let f : Party R → PreprocGate R (AuthAddShare R) =
          λ p. preproc_dotp (mask_at p o) (part_at o 0 p) in
        sends (simd dotprod in1 in2 o) q
          (Everyone-imp (λ p. preproc_at p o ≡ f p)
            (λ p. product_share p (simd dotprod in1 in2 o) (preproc_at p o) ≡ some (q p))
            (λ p h. ap (product_share p (simd dotprod in1 in2 o)) h) now
            (Everyone-now o f (λ p. refl) here))
          (dotprod-Shared now k ws ids_now some_now (with_wires-Agreed ws ps) d in1 in2
            (λ p. mask_at p o) (part_at o 0) (masks_moved in1 h) (masks_moved in2 h')
            (moved (λ p. mask_at p o) (λ p. refl) hm) (moved (part_at o 0) (λ p. refl) hab))
          (ap (λ z. d o ⊕ z) (dot_product-unmasked in1 in2 h h'))
    gate-Sends g s e h hr hm = absurd (none-some e)
