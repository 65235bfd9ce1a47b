-- ===== src/Asterisk/Offline/Prepare/Products.antt =====
-- The gates with products.
use qysnc_submission.Common.{ℕ, ◌≡◌, refl, sym, ◌∙◌, ap, ap₂, List, [], ◌∷◌, get_or, arith}
use qysnc_submission.Ring.{CommRing, ◌⊕◌, ◌⊗◌}
use qysnc_submission.Ring.Laws.{add-zero}
use qysnc_submission.Sharing.{TpShare}
use qysnc_submission.Circuit.{mul, mul3, mul4, dotprod, fin2, fin3, fin4, simd, out}
use qysnc_submission.Asterisk.{
  PreprocGate, preproc_mult, preproc_mult3, preproc_mult4, preproc_dotp, mask, no_share,
}
use qysnc_submission.Asterisk.Online.Products.{dot_product}
use qysnc_submission.Asterisk.Online.Setup.{AllOf, Prepared, parts}
use qysnc_submission.Asterisk.Offline.Role.{Tp, Vectors, Preparing, tp_role, party_role}
use qysnc_submission.Asterisk.Offline.Gates.{mask_products, prepare_gate}
use qysnc_submission.Asterisk.Offline.Ready.{Ready, Ready-sec_of}
use qysnc_submission.Asterisk.Offline.Multiply.{
  multiply-Ready, Multiplied-Shared, Multiplied-Everyone,
}
use qysnc_submission.Asterisk.Offline.Place.{tp_after}
use qysnc_submission.Asterisk.Offline.Prepare.{Prepares, Before}

module _ {ℓ κ} {A : Type ℓ} {Z : Type κ} where
  ap₄ :
      (f : A → A → A → A → Z) {a a' b b' c c' e e' : A}
      → a ≡ a'
      → b ≡ b'
      → c ≡ c'
      → e ≡ e'
      → f a b c e ≡ f a' b' c' e'
  ap₄ f {a} {a'} {b} {b'} {c} {c'} {e} {e'} p q s t =
      ap₂ (λ x y. f x y c e) p q ∙ ap₂ (λ x y. f a' b' x y) s t

module _ {ℓ} {R X : Type ℓ} (dflt : X) where
  -- The entries of the gates with products.
  abbrev build_mult : X → List X → PreprocGate R X
  build_mult x xs = preproc_mult x (get_or xs 0 dflt)

  abbrev build_mult3 : X → List X → PreprocGate R X
  build_mult3 x xs =
      preproc_mult3 x (get_or xs 0 dflt) (get_or xs 1 dflt) (get_or xs 2 dflt) (get_or xs 3 dflt)

  abbrev build_mult4 : X → List X → PreprocGate R X
  build_mult4 x xs =
      preproc_mult4 x (get_or xs 0 dflt) (get_or xs 1 dflt) (get_or xs 2 dflt) (get_or xs 3 dflt)
        (get_or xs 4 dflt) (get_or xs 5 dflt) (get_or xs 6 dflt) (get_or xs 7 dflt)
        (get_or xs 8 dflt) (get_or xs 9 dflt) (get_or xs 10 dflt)

  abbrev build_dotp : X → List X → PreprocGate R X
  build_dotp x xs = preproc_dotp x (get_or xs 0 dflt)

module _ {ℓ} {R : Type ℓ} ⦃r : CommRing R⦄ where
  abbrev products3 : R → R → R → List R
  products3 a b c = (a ⊗ b) ∷ (a ⊗ c) ∷ (b ⊗ c) ∷ (a ⊗ b ⊗ c) ∷ []

  abbrev products4 : R → R → R → R → List R
  products4 a b c e =
      (a ⊗ b)
      ∷ (a ⊗ c)
      ∷ (a ⊗ e)
      ∷ (b ⊗ c)
      ∷ (b ⊗ e)
      ∷ (c ⊗ e)
      ∷ (a ⊗ b ⊗ c)
      ∷ (a ⊗ b ⊗ e)
      ∷ (a ⊗ c ⊗ e)
      ∷ (b ⊗ c ⊗ e)
      ∷ (a ⊗ b ⊗ c ⊗ e)
      ∷ []

  -- The trusted party's part of a sharing that is not there.
  abbrev no_tp : TpShare R
  no_tp = record { key = r.zero; key_shs = []; values = []; tags = [] }

module _ {ℓ κ} {R : Type ℓ} {G : Type κ} ⦃r : CommRing R⦄ (randomize : G → R × G) (nP n : ℕ)
    (pid_of : ℕ → ℕ) (whole : Vectors R) (k : R) (d : ℕ → R) where
  mask_products-dot_product :
      {D : ℕ → Type 0} (t : Tp R G) (ps : List (Preparing R G)) (in1 in2 : List ℕ) (acc : R)
      → Ready randomize nP n pid_of whole k d D t ps
      → AllOf D in1
      → AllOf D in2
      → mask_products (tp_role randomize) t in1 in2 acc ≡ acc ⊕ dot_product d in1 in2
  unfolding mask_products AllOf
  mask_products-dot_product t ps [] in2 acc h h1 h2 = sym (add-zero acc)
  mask_products-dot_product t ps (a ∷ in1) [] acc h h1 h2 = sym (add-zero acc)
  mask_products-dot_product t ps (a ∷ in1) (b ∷ in2) acc h (ha, h1) (hb, h2) =
      let ea = Ready-sec_of randomize nP n pid_of whole k d a h ha in
      let eb = Ready-sec_of randomize nP n pid_of whole k d b h hb in
      mask_products-dot_product t ps in1 in2 _ h h1 h2
      ∙ r.add_assoc acc _ (dot_product d in1 in2)
      ∙ ap (λ z. acc ⊕ (z ⊕ dot_product d in1 in2)) (ap₂ ◌⊗◌ ea eb)

  module _ {D : ℕ → Type 0} (t : Tp R G) (ps : List (Preparing R G)) where
    pub mul-Prepares :
        (a b o : ℕ)
        → D a
        → D b
        → Before randomize nP n pid_of whole k d D t ps (fin2 mul a b o)
        → Prepares randomize nP n pid_of whole k d D t ps (fin2 mul a b o)
    unfolding prepare_gate out tp_role party_role Prepared mask
    mul-Prepares a b o da db h =
        let vs = (d a ⊗ d b) ∷ [] in
        let done =
          multiply-Ready randomize nP n pid_of whole k d t ps (fin2 mul a b o) vs (build_mult no_tp)
            (build_mult no_share) h.ready h.new h.below h.known h.ext (λ x xs. refl) (λ x xs. refl)
            (ap₂ (λ x y. tp_after randomize nP n whole t ps ((x ⊗ y) ∷ []) o (build_mult no_tp))
              (Ready-sec_of randomize nP n pid_of whole k d a h.ready da)
              (Ready-sec_of randomize nP n pid_of whole k d b h.ready db))
            (λ p. refl) in
        record {
          ready = done.0;
          prepared = λ fin leaves. (
            Multiplied-Everyone randomize nP n pid_of whole k d ps (fin2 mul a b o) fin leaves vs
                (build_mult no_share) (λ z. z ≡ preproc_mult (mask z) (get_or (parts z) 0 no_share))
                done.1 (λ p. refl),
            Multiplied-Shared randomize nP n pid_of whole k d ps (fin2 mul a b o) fin leaves vs
                (build_mult no_share) 0 done.1 (omega arith) (λ p. refl),
          );
        }

    pub mul3-Prepares :
        (a b c o : ℕ)
        → D a
        → D b
        → D c
        → Before randomize nP n pid_of whole k d D t ps (fin3 mul3 a b c o)
        → Prepares randomize nP n pid_of whole k d D t ps (fin3 mul3 a b c o)
    unfolding prepare_gate out tp_role party_role Prepared mask
    mul3-Prepares a b c o da db dc h =
        let vs = products3 (d a) (d b) (d c) in
        let done =
          multiply-Ready randomize nP n pid_of whole k d t ps (fin3 mul3 a b c o) vs
            (build_mult3 no_tp) (build_mult3 no_share) h.ready h.new h.below h.known h.ext
            (λ x xs. refl) (λ x xs. refl)
            (ap₄
              (λ x y z (u : R).
                tp_after randomize nP n whole t ps (products3 x y z) o (build_mult3 no_tp))
              (Ready-sec_of randomize nP n pid_of whole k d a h.ready da)
              (Ready-sec_of randomize nP n pid_of whole k d b h.ready db)
              (Ready-sec_of randomize nP n pid_of whole k d c h.ready dc)
              (Ready-sec_of randomize nP n pid_of whole k d c h.ready dc))
            (λ p. refl) in
        record {
          ready = done.0;
          prepared = λ fin leaves. (
            Multiplied-Everyone randomize nP n pid_of whole k d ps (fin3 mul3 a b c o) fin leaves vs
                (build_mult3 no_share)
                (λ z.
                  z
                  ≡ preproc_mult3 (mask z) (get_or (parts z) 0 no_share)
                      (get_or (parts z) 1 no_share) (get_or (parts z) 2 no_share)
                      (get_or (parts z) 3 no_share))
                done.1 (λ p. refl),
            Multiplied-Shared randomize nP n pid_of whole k d ps (fin3 mul3 a b c o) fin leaves vs
                (build_mult3 no_share) 0 done.1 (omega arith) (λ p. refl),
            Multiplied-Shared randomize nP n pid_of whole k d ps (fin3 mul3 a b c o) fin leaves vs
                (build_mult3 no_share) 1 done.1 (omega arith) (λ p. refl),
            Multiplied-Shared randomize nP n pid_of whole k d ps (fin3 mul3 a b c o) fin leaves vs
                (build_mult3 no_share) 2 done.1 (omega arith) (λ p. refl),
            Multiplied-Shared randomize nP n pid_of whole k d ps (fin3 mul3 a b c o) fin leaves vs
                (build_mult3 no_share) 3 done.1 (omega arith) (λ p. refl),
          );
        }

    pub mul4-Prepares :
        (a b c e o : ℕ)
        → D a
        → D b
        → D c
        → D e
        → Before randomize nP n pid_of whole k d D t ps (fin4 mul4 a b c e o)
        → Prepares randomize nP n pid_of whole k d D t ps (fin4 mul4 a b c e o)
    unfolding prepare_gate out tp_role party_role Prepared mask
    mul4-Prepares a b c e o da db dc de h =
        let vs = products4 (d a) (d b) (d c) (d e) in
        let done =
          multiply-Ready randomize nP n pid_of whole k d t ps (fin4 mul4 a b c e o) vs
            (build_mult4 no_tp) (build_mult4 no_share) h.ready h.new h.below h.known h.ext
            (λ x xs. refl) (λ x xs. refl)
            (ap₄
              (λ x y z u.
                tp_after randomize nP n whole t ps (products4 x y z u) o (build_mult4 no_tp))
              (Ready-sec_of randomize nP n pid_of whole k d a h.ready da)
              (Ready-sec_of randomize nP n pid_of whole k d b h.ready db)
              (Ready-sec_of randomize nP n pid_of whole k d c h.ready dc)
              (Ready-sec_of randomize nP n pid_of whole k d e h.ready de))
            (λ p. refl) in
        record {
          ready = done.0;
          prepared = λ fin leaves. (
            Multiplied-Everyone randomize nP n pid_of whole k d ps (fin4 mul4 a b c e o) fin leaves
                vs (build_mult4 no_share)
                (λ z.
                  z
                  ≡ preproc_mult4 (mask z) (get_or (parts z) 0 no_share)
                      (get_or (parts z) 1 no_share) (get_or (parts z) 2 no_share)
                      (get_or (parts z) 3 no_share) (get_or (parts z) 4 no_share)
                      (get_or (parts z) 5 no_share) (get_or (parts z) 6 no_share)
                      (get_or (parts z) 7 no_share) (get_or (parts z) 8 no_share)
                      (get_or (parts z) 9 no_share) (get_or (parts z) 10 no_share))
                done.1 (λ p. refl),
            Multiplied-Shared randomize nP n pid_of whole k d ps (fin4 mul4 a b c e o) fin leaves vs
                (build_mult4 no_share) 0 done.1 (omega arith) (λ p. refl),
            Multiplied-Shared randomize nP n pid_of whole k d ps (fin4 mul4 a b c e o) fin leaves vs
                (build_mult4 no_share) 1 done.1 (omega arith) (λ p. refl),
            Multiplied-Shared randomize nP n pid_of whole k d ps (fin4 mul4 a b c e o) fin leaves vs
                (build_mult4 no_share) 2 done.1 (omega arith) (λ p. refl),
            Multiplied-Shared randomize nP n pid_of whole k d ps (fin4 mul4 a b c e o) fin leaves vs
                (build_mult4 no_share) 3 done.1 (omega arith) (λ p. refl),
            Multiplied-Shared randomize nP n pid_of whole k d ps (fin4 mul4 a b c e o) fin leaves vs
                (build_mult4 no_share) 4 done.1 (omega arith) (λ p. refl),
            Multiplied-Shared randomize nP n pid_of whole k d ps (fin4 mul4 a b c e o) fin leaves vs
                (build_mult4 no_share) 5 done.1 (omega arith) (λ p. refl),
            Multiplied-Shared randomize nP n pid_of whole k d ps (fin4 mul4 a b c e o) fin leaves vs
                (build_mult4 no_share) 6 done.1 (omega arith) (λ p. refl),
            Multiplied-Shared randomize nP n pid_of whole k d ps (fin4 mul4 a b c e o) fin leaves vs
                (build_mult4 no_share) 7 done.1 (omega arith) (λ p. refl),
            Multiplied-Shared randomize nP n pid_of whole k d ps (fin4 mul4 a b c e o) fin leaves vs
                (build_mult4 no_share) 8 done.1 (omega arith) (λ p. refl),
            Multiplied-Shared randomize nP n pid_of whole k d ps (fin4 mul4 a b c e o) fin leaves vs
                (build_mult4 no_share) 9 done.1 (omega arith) (λ p. refl),
            Multiplied-Shared randomize nP n pid_of whole k d ps (fin4 mul4 a b c e o) fin leaves vs
                (build_mult4 no_share) 10 done.1 (omega arith) (λ p. refl),
          );
        }

    pub dotprod-Prepares :
        (in1 in2 : List ℕ) (o : ℕ)
        → AllOf D in1
        → AllOf D in2
        → Before randomize nP n pid_of whole k d D t ps (simd dotprod in1 in2 o)
        → Prepares randomize nP n pid_of whole k d D t ps (simd dotprod in1 in2 o)
    unfolding prepare_gate out tp_role party_role Prepared mask
    dotprod-Prepares in1 in2 o d1 d2 h =
        let vs = dot_product d in1 in2 ∷ [] in
        let done =
          multiply-Ready randomize nP n pid_of whole k d t ps (simd dotprod in1 in2 o) vs
            (build_dotp no_tp) (build_dotp no_share) h.ready h.new h.below h.known h.ext
            (λ x xs. refl) (λ x xs. refl)
            (ap (λ x. tp_after randomize nP n whole t ps (x ∷ []) o (build_dotp no_tp))
              (mask_products-dot_product t ps in1 in2 r.zero h.ready d1 d2
                ∙ r.zero-add (dot_product d in1 in2)))
            (λ p. refl) in
        record {
          ready = done.0;
          prepared = λ fin leaves. (
            Multiplied-Everyone randomize nP n pid_of whole k d ps (simd dotprod in1 in2 o) fin
                leaves vs (build_dotp no_share)
                (λ z. z ≡ preproc_dotp (mask z) (get_or (parts z) 0 no_share)) done.1 (λ p. refl),
            Multiplied-Shared randomize nP n pid_of whole k d ps (simd dotprod in1 in2 o) fin leaves
                vs (build_dotp no_share) 0 done.1 (omega arith) (λ p. refl),
          );
        }
