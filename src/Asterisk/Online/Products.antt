-- ===== src/Asterisk/Online/Products.antt =====
-- The shares that the parties send for a multiplication add up to the mask of the output plus the
-- product of the unmasked inputs.
use qysnc_submission.Common.{ℕ, ◌≤◌, subst, List, [], ◌∷◌, length, ap, get_or}
use mathlib.Core.Logic.{Lift}
use qysnc_submission.Ring.{CommRing, ◌⊕◌, ◌⊗◌, ◌⊖◌}
use qysnc_submission.Sharing.{AuthAddShare, plus, times, add_const}
use qysnc_submission.Asterisk.{Party, mask_at, wire_at}
use qysnc_submission.Asterisk.Shared.{
  Numbered, Shared, Agreed, Shared-Agreed, Shared-plus, Shared-times, Shared-minus,
  Shared-add_const,
}
use qysnc_submission.Asterisk.Online.{mul_share, mul3_share, mul4_share, dotprod_pair, dotprod_loop}
use qysnc_submission.Asterisk.Online.Identities.{masked_mul, masked_mul3, masked_mul4, masked_pair}

module _ {ℓ} {R : Type ℓ} ⦃r : CommRing R⦄ where
  -- The sum over the pairs of wires of a `kDotprod` gate.
  abbrev pub dot_product : (ℕ → R) → List ℕ → List ℕ → R
  dot_product v (a ∷ in1) (b ∷ in2) = v a ⊗ v b ⊕ dot_product v in1 in2
  dot_product v _ _ = r.zero

  -- The masks of the wires are shared.
  abbrev pub MasksShared : List (Party R) → R → (ℕ → R) → List ℕ → Type ℓ
  MasksShared ps k d [] = Lift {0, ℓ} Unit
  MasksShared ps k d (w ∷ in1) = Shared ps k (λ p. mask_at p w) (d w) × MasksShared ps k d in1

  module _ (ps : List (Party R)) (k : R) (ws : List R) (ids : Numbered 1 ps)
      (some_party : 1 ≤ length ps) (agreed : Agreed ws ps) where
    abbrev wire : ℕ → R
    wire w = get_or ws w r.zero

    -- A share that a party scales by a wire it reads.
    Shared-scaled :
        (f : Party R → AuthAddShare R) (w : ℕ) {v : R}
        → Shared ps k f v
        → Shared ps k (λ p. times (f p) (wire_at p w)) (v ⊗ wire w)
    Shared-scaled f w {v} h =
        Shared-Agreed ps k ws (λ p. times (f p) (wire_at p w)) (λ p. times (f p) (wire w)) agreed
          (λ p e. ap (λ z. times (f p) (get_or z w r.zero)) e) (Shared-times ps k (wire w) h)

    Shared-added :
        (f : Party R → AuthAddShare R) (c : List R → R) {v : R}
        → Shared ps k f v
        → Shared ps k (λ p. add_const (f p) (c p.wires) p.id) (v ⊕ c ws)
    Shared-added f c {v} h =
        Shared-Agreed ps k ws (λ p. add_const (f p) (c p.wires) p.id)
          (λ p. add_const (f p) (c ws) p.id) agreed (λ p e. ap (λ z. add_const (f p) (c z) p.id) e)
          (Shared-add_const ps k (c ws) ids some_party h)

    -- `kMul`: the mask `dm` of the output plus the product.
    pub mul_share-Shared :
        (a b : ℕ) (m ab : Party R → AuthAddShare R) {da db dm : R}
        → Shared ps k (λ p. mask_at p a) da
        → Shared ps k (λ p. mask_at p b) db
        → Shared ps k m dm
        → Shared ps k ab (da ⊗ db)
        → Shared ps k (λ p. mul_share p a b (m p) (ab p)) (dm ⊕ (wire a ⊖ da) ⊗ (wire b ⊖ db))
    unfolding mul_share
    mul_share-Shared a b m ab {da} {db} {dm} ha hb hm hab =
        subst (λ v. Shared ps k (λ p. mul_share p a b (m p) (ab p)) v)
          (masked_mul dm (wire a) (wire b) da db)
          (Shared-added _ (λ z. get_or z a r.zero ⊗ get_or z b r.zero)
            (Shared-minus ps k
              (Shared-minus ps k (Shared-plus ps k hm hab) (Shared-scaled (λ p. mask_at p a) b ha))
              (Shared-scaled (λ p. mask_at p b) a hb)))

    Shared-scaled2 :
        (f : Party R → AuthAddShare R) (w z : ℕ) {v : R}
        → Shared ps k f v
        → Shared ps k (λ p. times (times (f p) (wire_at p w)) (wire_at p z)) (v ⊗ wire w ⊗ wire z)
    Shared-scaled2 f w z h = Shared-scaled (λ p. times (f p) (wire_at p w)) z (Shared-scaled f w h)

    Shared-scaled3 :
        (f : Party R → AuthAddShare R) (w z y : ℕ) {v : R}
        → Shared ps k f v
        → Shared ps k
            (λ p. times (times (times (f p) (wire_at p w)) (wire_at p z)) (wire_at p y))
            (v ⊗ wire w ⊗ wire z ⊗ wire y)
    Shared-scaled3 f w z y h =
        Shared-scaled (λ p. times (times (f p) (wire_at p w)) (wire_at p z)) y
          (Shared-scaled2 f w z h)

    -- `kMul3`.
    pub mul3_share-Shared :
        (a b c : ℕ) (m ab ac bc abc : Party R → AuthAddShare R) {da db dc dm : R}
        → Shared ps k (λ p. mask_at p a) da
        → Shared ps k (λ p. mask_at p b) db
        → Shared ps k (λ p. mask_at p c) dc
        → Shared ps k m dm
        → Shared ps k ab (da ⊗ db)
        → Shared ps k ac (da ⊗ dc)
        → Shared ps k bc (db ⊗ dc)
        → Shared ps k abc (da ⊗ db ⊗ dc)
        → Shared ps k
            (λ p. mul3_share p a b c (m p) (ab p) (ac p) (bc p) (abc p))
            (dm ⊕ (wire a ⊖ da) ⊗ (wire b ⊖ db) ⊗ (wire c ⊖ dc))
    unfolding mul3_share
    mul3_share-Shared a b c m ab ac bc abc {da} {db} {dc} {dm} ha hb hc hm hab hac hbc habc =
        subst (λ v. Shared ps k (λ p. mul3_share p a b c (m p) (ab p) (ac p) (bc p) (abc p)) v)
          (masked_mul3 dm (wire a) (wire b) (wire c) da db dc)
          (Shared-added _ (λ z. get_or z a r.zero ⊗ get_or z b r.zero ⊗ get_or z c r.zero)
            (Shared-minus ps k
              (Shared-plus ps k (Shared-minus ps k hm habc) (
                Shared-plus ps k
                  (Shared-plus ps k (Shared-scaled bc a hbc) (Shared-scaled ac b hac))
                  (Shared-scaled ab c hab)))
              (Shared-plus ps k
                (Shared-plus ps k (Shared-scaled2 (λ p. mask_at p c) a b hc)
                  (Shared-scaled2 (λ p. mask_at p b) a c hb))
                (Shared-scaled2 (λ p. mask_at p a) b c ha))))

    -- `kMul4`.
    pub mul4_share-Shared :
        (a b c d : ℕ) (m ab ac ad bc bd cd abc abd acd bcd abcd : Party R → AuthAddShare R)
        {da db dc dd dm : R}
        → Shared ps k (λ p. mask_at p a) da
        → Shared ps k (λ p. mask_at p b) db
        → Shared ps k (λ p. mask_at p c) dc
        → Shared ps k (λ p. mask_at p d) dd
        → Shared ps k m dm
        → Shared ps k ab (da ⊗ db)
        → Shared ps k ac (da ⊗ dc)
        → Shared ps k ad (da ⊗ dd)
        → Shared ps k bc (db ⊗ dc)
        → Shared ps k bd (db ⊗ dd)
        → Shared ps k cd (dc ⊗ dd)
        → Shared ps k abc (da ⊗ db ⊗ dc)
        → Shared ps k abd (da ⊗ db ⊗ dd)
        → Shared ps k acd (da ⊗ dc ⊗ dd)
        → Shared ps k bcd (db ⊗ dc ⊗ dd)
        → Shared ps k abcd (da ⊗ db ⊗ dc ⊗ dd)
        → Shared ps k
            (λ p.
              mul4_share p a b c d
                (m p)
                (ab p)
                (ac p)
                (ad p)
                (bc p)
                (bd p)
                (cd p)
                (abc p)
                (abd p)
                (acd p)
                (bcd p)
                (abcd p))
            (dm ⊕ (wire a ⊖ da) ⊗ (wire b ⊖ db) ⊗ (wire c ⊖ dc) ⊗ (wire d ⊖ dd))
    unfolding mul4_share
    mul4_share-Shared a b c d m ab ac ad bc bd cd abc abd acd bcd abcd {da} {db} {dc} {dd} {dm} ha
          hb hc hd hm hab hac had hbc hbd hcd habc habd hacd hbcd habcd =
        let triples =
          Shared-plus ps k
            (Shared-plus ps k
              (Shared-plus ps k (Shared-scaled3 (λ p. mask_at p d) a b c hd)
                (Shared-scaled3 (λ p. mask_at p c) a b d hc))
              (Shared-scaled3 (λ p. mask_at p b) a c d hb))
            (Shared-scaled3 (λ p. mask_at p a) b c d ha) in
        let doubles =
          Shared-plus ps k
            (Shared-plus ps k
              (Shared-plus ps k
                (Shared-plus ps k
                  (Shared-plus ps k (Shared-scaled2 cd a b hcd) (Shared-scaled2 bd a c hbd))
                  (Shared-scaled2 bc a d hbc))
                (Shared-scaled2 ad b c had))
              (Shared-scaled2 ac b d hac))
            (Shared-scaled2 ab c d hab) in
        let singles =
          Shared-plus ps k
            (Shared-plus ps k
              (Shared-plus ps k (Shared-scaled bcd a hbcd) (Shared-scaled acd b hacd))
              (Shared-scaled abd c habd))
            (Shared-scaled abc d habc) in
        subst
          (λ v.
            Shared ps k
              (λ p.
                mul4_share p a b c d (m p) (ab p) (ac p) (ad p) (bc p) (bd p) (cd p) (abc p) (abd p)
                  (acd p) (bcd p) (abcd p))
              v)
          (masked_mul4 dm (wire a) (wire b) (wire c) (wire d) da db dc dd)
          (Shared-added _
            (λ z. get_or z a r.zero ⊗ get_or z b r.zero ⊗ get_or z c r.zero ⊗ get_or z d r.zero)
            (Shared-plus ps k
              (Shared-minus ps k (Shared-plus ps k (Shared-minus ps k hm triples) doubles) singles)
              habcd))

    dotprod_loop-Shared :
        (d : ℕ → R) (in1 in2 : List ℕ) (q : Party R → AuthAddShare R) {v : R}
        → MasksShared ps k d in1
        → MasksShared ps k d in2
        → Shared ps k q (v ⊕ dot_product d in1 in2)
        → Shared ps k
            (λ p. dotprod_loop p in1 in2 (q p))
            (v ⊕ dot_product (λ w. wire w ⊖ d w) in1 in2)
    unfolding dotprod_loop
    dotprod_loop-Shared d [] in2 q h h' hq = hq
    dotprod_loop-Shared d (a ∷ in1) [] q h h' hq = hq
    dotprod_loop-Shared d (a ∷ in1) (b ∷ in2) q {v} (ha, h) (hb, h') hq =
        let step =
          Shared-added _ (λ z. get_or z a r.zero ⊗ get_or z b r.zero)
            (Shared-minus ps k hq (
              Shared-plus ps k (Shared-scaled (λ p. mask_at p a) b ha)
                (Shared-scaled (λ p. mask_at p b) a hb))) in
        subst (λ z. Shared ps k (λ p. dotprod_loop p (a ∷ in1) (b ∷ in2) (q p)) z)
          (r.add_assoc v ((wire a ⊖ d a) ⊗ (wire b ⊖ d b))
            (dot_product (λ w. wire w ⊖ d w) in1 in2))
          (dotprod_loop-Shared d in1 in2 (λ p. dotprod_pair p a b (q p)) h h'
            (subst (Shared ps k (λ p. dotprod_pair p a b (q p)))
              (masked_pair v (dot_product d in1 in2) (wire a) (wire b) (d a) (d b)) step))

    -- `kDotprod`.
    pub dotprod-Shared :
        (d : ℕ → R) (in1 in2 : List ℕ) (m ab : Party R → AuthAddShare R) {dm : R}
        → MasksShared ps k d in1
        → MasksShared ps k d in2
        → Shared ps k m dm
        → Shared ps k ab (dot_product d in1 in2)
        → Shared ps k
            (λ p. dotprod_loop p in1 in2 (plus (m p) (ab p)))
            (dm ⊕ dot_product (λ w. wire w ⊖ d w) in1 in2)
    dotprod-Shared d in1 in2 m ab h h' hm hab =
        dotprod_loop-Shared d in1 in2 (λ p. plus (m p) (ab p)) h h' (Shared-plus ps k hm hab)
