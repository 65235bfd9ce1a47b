-- ===== src/Asterisk/Offline/Sequence.antt =====
-- The gates of `setWireMasksParty` one after the other.
use qysnc_submission.Common.{ℕ, ◌<◌, ◌≡◌, refl, ◌∙◌, subst, inl, List, [], ◌∷◌, get_or}
use mathlib.Core.Logic.{Lift}
use qysnc_submission.Ring.{CommRing}
use qysnc_submission.Circuit.{
  inp, add, mul, mul3, mul4, sub, const_add, const_mul, dotprod, Gate, gate, fin2, fin3, fin4, simd,
  const_op, out,
}
use qysnc_submission.Asterisk.{PreprocGate}
use qysnc_submission.Asterisk.Online.Refine.{WithWire, AfterLevel}
use qysnc_submission.Asterisk.Online.Setup.{Reads}
use qysnc_submission.Asterisk.Offline.Draws.{Dealt}
use qysnc_submission.Asterisk.Offline.Role.{
  Role, Tp, Vectors, Preparing, tp_role, party_role, tp_share,
}
use qysnc_submission.Asterisk.Offline.Gates.{prepare_gate, prepare_gates}
use qysnc_submission.Asterisk.Offline.Sync.{Every, Extends}
use qysnc_submission.Asterisk.Offline.Keeps.{Keeps, prepare_gate-get_or}
use qysnc_submission.Asterisk.Offline.Calls.{tp_share-Dealt, tp_share-Extends}
use qysnc_submission.Asterisk.Offline.Calls.WithParty.{with_party-Dealt, with_party-Extends}
use qysnc_submission.Asterisk.Offline.Together.{products-Dealt, products-Extends, tp_products}
use qysnc_submission.Asterisk.Offline.Place.{trivial, with_gates-Extends}
use qysnc_submission.Asterisk.Offline.Ready.{tp_next, party_next}
use qysnc_submission.Asterisk.Offline.Prepare.{
  Prepares, Before, add-Prepares, sub-Prepares, const_add-Prepares, const_mul-Prepares,
}
use qysnc_submission.Asterisk.Offline.Prepare.Products.{
  mul-Prepares, mul3-Prepares, mul4-Prepares, dotprod-Prepares,
}
use qysnc_submission.Asterisk.Offline.Prepare.Input.{KnowsInput, input-Prepares}

module _ {ℓ} {R : Type ℓ} where
  -- The kinds of gates that are prepared here.
  unfoldable pub Supported : Gate R → Type ℓ
  Supported (gate inp o) = Lift {0, ℓ} Unit
  Supported (fin2 add a b o) = Lift {0, ℓ} Unit
  Supported (fin2 sub a b o) = Lift {0, ℓ} Unit
  Supported (fin2 mul a b o) = Lift {0, ℓ} Unit
  Supported (const_op const_add a c o) = Lift {0, ℓ} Unit
  Supported (const_op const_mul a c o) = Lift {0, ℓ} Unit
  Supported (fin3 mul3 a b c o) = Lift {0, ℓ} Unit
  Supported (fin4 mul4 a b c e o) = Lift {0, ℓ} Unit
  Supported (simd dotprod in1 in2 o) = Lift {0, ℓ} Unit
  Supported _ = Lift {0, ℓ} ⊥

  -- Each gate reads wires that are known, and writes a new one, of `n`.
  unfoldable pub Written : ℕ → (ℕ → Type 0) → List (Gate R) → Type 0
  Written n D [] = Unit
  Written n D (g ∷ gs) =
      Reads D g × (D (out g) → ⊥) × (out g < n) × Written n (WithWire D (out g)) gs

  pub AfterLevel-known : (D : ℕ → Type 0) (gs : List (Gate R)) (w : ℕ) → D w → AfterLevel D gs w
  AfterLevel-known D [] w h = h
  AfterLevel-known D (g ∷ gs) w h = AfterLevel-known (WithWire D (out g)) gs w (inl h)

module _ {ℓ σ} {R X : Type ℓ} {S : Type σ} ⦃r : CommRing R⦄ (role : Role R X S)
    (pid_of : ℕ → ℕ) where
  -- Known wires stay.
  pub prepare_gates-get_or :
      Keeps role
      → (n : ℕ) (D : ℕ → Type 0) (gs : List (Gate R)) (s : S) (w : ℕ) (x : PreprocGate R X)
      → Written n D gs
      → D w
      → get_or (role.preproc (prepare_gates role pid_of gs s)) w x ≡ get_or (role.preproc s) w x
  unfolding Written prepare_gates
  prepare_gates-get_or keeps n D [] s w x h dw = refl
  prepare_gates-get_or keeps n D (g ∷ gs) s w x (rd, new, lt, h) dw =
      prepare_gates-get_or keeps n (WithWire D (out g)) gs (prepare_gate role pid_of g s).1 w x h
        (inl dw)
      ∙ prepare_gate-get_or role pid_of keeps g s w x (λ e. new (subst D e dw))

module _ {ℓ κ} {R : Type ℓ} {G : Type κ} ⦃r : CommRing R⦄ (randomize : G → R × G) (nP n : ℕ)
    (pid_of : ℕ → ℕ) (whole : Vectors R) (k : R) (d : ℕ → R) where
  product-Dealt :
      (t : Tp R G) (vs : List R)
      → Dealt t.dealer nP
      → Dealt (tp_products randomize nP whole vs (tp_share randomize t).1).1.dealer nP
  product-Dealt t vs h =
      products-Dealt randomize nP whole vs (tp_share randomize t).1
        (tp_share-Dealt randomize nP whole t h)

  product-Extends :
      (t : Tp R G) (ps : List (Preparing R G)) (vs : List R) (gates : _)
      → Dealt t.dealer nP
      → Extends whole (record (tp_products randomize nP whole vs (tp_share randomize t).1).1 {
        preproc = gates;
      })
      → Extends whole t
  product-Extends t ps vs gates h e = tp_share-Extends randomize nP whole t h (
      products-Extends randomize nP whole vs (tp_share randomize t).1
        (tp_share-Dealt randomize nP whole t h)
        (with_gates-Extends randomize nP n whole t ps _ gates e))

  -- The keys stay dealt, and what is sent is appended.
  pub gate-Dealt :
      (g : Gate R) (t : Tp R G)
      → Dealt t.dealer nP
      → Dealt (tp_next randomize nP n pid_of whole k d g t).dealer nP
  unfolding prepare_gate tp_role
  gate-Dealt (gate inp o) t h = with_party-Dealt randomize nP whole (pid_of o) t h
  gate-Dealt (fin2 add a b o) t h = h
  gate-Dealt (fin2 sub a b o) t h = h
  gate-Dealt (fin2 mul a b o) t h = product-Dealt t (_ ∷ []) h
  gate-Dealt (const_op const_add a c o) t h = h
  gate-Dealt (const_op const_mul a c o) t h = h
  gate-Dealt (fin3 mul3 a b c o) t h = product-Dealt t (_ ∷ _ ∷ _ ∷ _ ∷ []) h
  gate-Dealt (fin4 mul4 a b c e o) t h =
      product-Dealt t (_ ∷ _ ∷ _ ∷ _ ∷ _ ∷ _ ∷ _ ∷ _ ∷ _ ∷ _ ∷ _ ∷ []) h
  gate-Dealt (simd dotprod in1 in2 o) t h = product-Dealt t (_ ∷ []) h
  gate-Dealt _ t h = h

  gate-Extends :
      (g : Gate R) (t : Tp R G) (ps : List (Preparing R G))
      → Dealt t.dealer nP
      → Extends whole (tp_next randomize nP n pid_of whole k d g t)
      → Extends whole t
  unfolding prepare_gate tp_role
  gate-Extends (gate inp o) t ps h e =
      with_party-Extends randomize nP whole (pid_of o) t h
        (with_gates-Extends randomize nP n whole t ps _ _ e)
  gate-Extends (fin2 add a b o) t ps h e = with_gates-Extends randomize nP n whole t ps t _ e
  gate-Extends (fin2 sub a b o) t ps h e = with_gates-Extends randomize nP n whole t ps t _ e
  gate-Extends (fin2 mul a b o) t ps h e = product-Extends t ps (_ ∷ []) _ h e
  gate-Extends (const_op const_add a c o) t ps h e =
      with_gates-Extends randomize nP n whole t ps t _ e
  gate-Extends (const_op const_mul a c o) t ps h e =
      with_gates-Extends randomize nP n whole t ps t _ e
  gate-Extends (fin3 mul3 a b c o) t ps h e = product-Extends t ps (_ ∷ _ ∷ _ ∷ _ ∷ []) _ h e
  gate-Extends (fin4 mul4 a b c e' o) t ps h e =
      product-Extends t ps (_ ∷ _ ∷ _ ∷ _ ∷ _ ∷ _ ∷ _ ∷ _ ∷ _ ∷ _ ∷ _ ∷ []) _ h e
  gate-Extends (simd dotprod in1 in2 o) t ps h e = product-Extends t ps (_ ∷ []) _ h e
  gate-Extends _ t ps h e = e

  pub gates-Extends :
      (gs : List (Gate R)) (t : Tp R G) (ps : List (Preparing R G))
      → Dealt t.dealer nP
      → Extends whole (prepare_gates (tp_role randomize) pid_of gs t)
      → Extends whole t
  unfolding prepare_gates
  gates-Extends [] t ps h e = e
  gates-Extends (g ∷ gs) t ps h e =
      gate-Extends g t ps h
        (gates-Extends gs (tp_next randomize nP n pid_of whole k d g t) ps (gate-Dealt g t h) e)

  -- A gate of any kind.
  pub gate-Prepares :
      {D : ℕ → Type 0} (g : Gate R) (t : Tp R G) (ps : List (Preparing R G))
      → Supported g
      → Reads D g
      → Before randomize nP n pid_of whole k d D t ps g
      → Prepares randomize nP n pid_of whole k d D t ps g
        × Every
            (λ p. KnowsInput pid_of d g (party_next randomize nP n pid_of whole k d g p) p.id)
            ps
  unfolding Supported Reads KnowsInput
  gate-Prepares (gate inp o) t ps s rd h = input-Prepares randomize nP n pid_of whole k d t ps o h
  gate-Prepares (fin2 add a b o) t ps s (ra, rb) h =
      (add-Prepares randomize nP n pid_of whole k d t ps a b o ra rb h, trivial ps)
  gate-Prepares (fin2 sub a b o) t ps s (ra, rb) h =
      (sub-Prepares randomize nP n pid_of whole k d t ps a b o ra rb h, trivial ps)
  gate-Prepares (fin2 mul a b o) t ps s (ra, rb) h =
      (mul-Prepares randomize nP n pid_of whole k d t ps a b o ra rb h, trivial ps)
  gate-Prepares (const_op const_add a c o) t ps s ra h =
      (const_add-Prepares randomize nP n pid_of whole k d t ps a c o ra h, trivial ps)
  gate-Prepares (const_op const_mul a c o) t ps s ra h =
      (const_mul-Prepares randomize nP n pid_of whole k d t ps a c o ra h, trivial ps)
  gate-Prepares (fin3 mul3 a b c o) t ps s (ra, rb, rc) h =
      (mul3-Prepares randomize nP n pid_of whole k d t ps a b c o ra rb rc h, trivial ps)
  gate-Prepares (fin4 mul4 a b c e o) t ps s (ra, rb, rc, re) h =
      (mul4-Prepares randomize nP n pid_of whole k d t ps a b c e o ra rb rc re h, trivial ps)
  gate-Prepares (simd dotprod in1 in2 o) t ps s (r1, r2) h =
      (dotprod-Prepares randomize nP n pid_of whole k d t ps in1 in2 o r1 r2 h, trivial ps)
  gate-Prepares _ t ps s rd h = absurd s.lower

  -- The parties' ids stay.
  pub party_next-id :
      (g : Gate R) (p : Preparing R G) → (party_next randomize nP n pid_of whole k d g p).id ≡ p.id
  unfolding prepare_gate party_role
  party_next-id (gate inp o) p = refl
  party_next-id (fin2 add a b o) p = refl
  party_next-id (fin2 sub a b o) p = refl
  party_next-id (fin2 mul a b o) p = refl
  party_next-id (const_op const_add a c o) p = refl
  party_next-id (const_op const_mul a c o) p = refl
  party_next-id (fin3 mul3 a b c o) p = refl
  party_next-id (fin4 mul4 a b c e o) p = refl
  party_next-id (simd dotprod in1 in2 o) p = refl
  party_next-id _ p = refl
