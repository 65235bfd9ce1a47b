-- ===== src/Asterisk/Online/Run/Inputs.antt =====
-- `setInputs` leaves, at every party, the wires that the rounds begin with.
use qysnc_submission.Common.{
  none, ℕ, ◌<◌, ◌≡◌, refl, sym, ◌∙◌, subst, ◌==◌, Bool-cases, true, false, inl, inr, some, List, [],
  ◌∷◌, length, get_or, set, arith, length-set, get_or-set_self, get_or-set_ne,
}
use mathlib.Core.Logic.{Lift}
use qysnc_submission.Common.Map.{nat_eq, lookup}
use qysnc_submission.Ring.{CommRing, ◌⊕◌}
use qysnc_submission.Sharing.{AuthAddShare}
use qysnc_submission.Circuit.{inp, Gate, gate}
use qysnc_submission.Asterisk.{preproc_input, Party, Checks, preproc_at}
use qysnc_submission.Asterisk.Online.Refine.{AllGates, InputSet}
use qysnc_submission.Asterisk.Online.Run.{sent_input, set_input, set_inputs}

module _ {ℓ} {R : Type ℓ} ⦃r : CommRing R⦄ where
  -- The party that gives an input sends the sum of the input and its mask.
  pub sent_input-own :
      (inputs : List (ℕ × R)) (p : Party R) (o : ℕ) (m : AuthAddShare R) (pid : ℕ)
      (mask_value v : R)
      → preproc_at p o ≡ preproc_input m pid mask_value
      → (pid == p.id) ≡ true
      → lookup o inputs ≡ some v
      → sent_input inputs (gate inp o) p ≡ some (mask_value ⊕ v)
  unfolding sent_input
  sent_input-own inputs p o m pid mask_value v e b has = rw (e, b, has, sent_input) refl

  -- A party sends nothing for the input of another.
  pub sent_input-other :
      (inputs : List (ℕ × R)) (p : Party R) (o : ℕ) (m : AuthAddShare R) (pid : ℕ) (mask_value : R)
      → preproc_at p o ≡ preproc_input m pid mask_value
      → (pid == p.id) ≡ false
      → sent_input inputs (gate inp o) p ≡ none
  unfolding sent_input
  sent_input-other inputs p o m pid mask_value e b = rw (e, b, sent_input) refl

module _ {ℓ} {R : Type ℓ} ⦃r : CommRing R⦄ (x d : ℕ → R) where
  -- The wires with the inputs `x` under the masks `d` set.
  abbrev put_input : Gate R → List R → List R
  put_input (gate inp o) ws = set ws o (d o ⊕ x o)
  put_input _ ws = ws

  abbrev pub put_inputs : List (Gate R) → List R → List R
  put_inputs [] ws = ws
  put_inputs (g ∷ gs) ws = put_inputs gs (put_input g ws)

  -- The party that gives an input has it and knows its mask; the others receive the sum from it.
  unfoldable pub GetsInput : List (ℕ × R) → (ℕ → R) → Party R → Gate R → Type ℓ
  GetsInput inputs from_owner p (gate inp o) =
      (m : AuthAddShare R) × (pid : ℕ) × (mask_value : R) × (preproc_at p o
        ≡ preproc_input m pid mask_value)
      × ((pid == p.id) ≡ true → (lookup o inputs ≡ some (x o)) × (mask_value ≡ d o))
      × ((pid == p.id) ≡ false → from_owner o ≡ d o ⊕ x o)
  GetsInput inputs from_owner p _ = Lift {0, ℓ} Unit

  -- The state after one gate.
  abbrev Puts :
      List (ℕ × R) → (ℕ → R) → List R → List R → Party R → Checks R → List (Gate R) → Type ℓ
  Puts inputs from_owner ws ws' p checks gs =
      (checks' : Checks R) × (set_inputs inputs from_owner gs (record p { wires = ws }, checks)
        ≡ some (record p { wires = ws' }, checks'))

  set_input-put :
      (inputs : List (ℕ × R)) (from_owner : ℕ → R) (p : Party R) (ws : List R) (checks : Checks R)
      (g : Gate R)
      → GetsInput inputs from_owner p g
      → (checks' : Checks R) × (set_input inputs from_owner g (record p { wires = ws }, checks)
          ≡ some (record p { wires = put_input g ws }, checks'))
  unfolding GetsInput set_input
  set_input-put inputs from_owner p ws checks (gate inp o) (m, pid, mv, e, own, other) =
      elim (Bool-cases (pid == p.id)) [
        | inl b ↦ (
          record checks { q_val = set checks.q_val o (d o ⊕ x o) },
          rw
              (
                e,
                b,
                sent_input-own inputs (record p { wires = ws }) o m pid mv (x o) e b (own b).0,
                (own b).1,
                set_input,
              )
              refl,
        )
        | inr b ↦ (
          record checks { q_val = set checks.q_val o (d o ⊕ x o) },
          rw (e, b, other b, set_input) refl,
        )
      ]
  set_input-put inputs from_owner p ws checks _ h = (checks, refl)

  -- `setInputs` over the gates of the level.
  pub set_inputs-put_inputs :
      (inputs : List (ℕ × R)) (from_owner : ℕ → R) (p : Party R) (ws : List R) (checks : Checks R)
      (gs : List (Gate R))
      → AllGates (GetsInput inputs from_owner p) gs
      → Puts inputs from_owner ws (put_inputs gs ws) p checks gs
  unfolding set_inputs
  set_inputs-put_inputs inputs from_owner p ws checks [] h = (checks, refl)
  set_inputs-put_inputs inputs from_owner p ws checks (g ∷ gs) (here, h) =
      let (checks', e) = set_input-put inputs from_owner p ws checks g here in
      let (checks'', e') =
        set_inputs-put_inputs inputs from_owner p (put_input g ws) checks' gs h in
      (checks'', rw (e, set_inputs) e')

  -- The inputs of the plain evaluation, for the wires of the input gates.
  unfoldable pub GivesInput : ℕ → List (ℕ × R) → Gate R → Type ℓ
  GivesInput n inputs (gate inp o) = (lookup o inputs ≡ some (x o)) × Lift {0, ℓ} (o < n)
  GivesInput n inputs _ = Lift {0, ℓ} Unit

  pub length-put_inputs : (gs : List (Gate R)) (ws : List R) → length (put_inputs gs ws) ≡ length ws
  length-put_inputs [] ws = refl
  length-put_inputs (g ∷ gs) ws = length-put_inputs gs (put_input g ws) ∙ one g
    where
      one : (g : Gate R) → length (put_input g ws) ≡ length ws
      one (gate inp o) = length-set ws o (d o ⊕ x o)
      one _ = refl

  -- A wire that is set stays so.
  put_input-keeps :
      (g : Gate R) (ws : List R) (o : ℕ)
      → o < length ws
      → get_or ws o r.zero ≡ d o ⊕ x o
      → get_or (put_input g ws) o r.zero ≡ d o ⊕ x o
  put_input-keeps (gate inp v) ws o lt h = elim (Bool-cases (v == o)) [
    | inl b ↦
        let e : v ≡ o = ground arith in
        subst (λ u. get_or (set ws u (d u ⊕ x u)) o r.zero ≡ d o ⊕ x o) (sym e)
          (get_or-set_self ws o (d o ⊕ x o) r.zero lt)
    | inr b ↦ get_or-set_ne ws v o (d v ⊕ x v) r.zero (λ e. absurd (ground arith)) ∙ h
  ]
  put_input-keeps _ ws o lt h = h

  length-put_input : (g : Gate R) (ws : List R) → length (put_input g ws) ≡ length ws
  length-put_input g ws = length-put_inputs (g ∷ []) ws

  put_inputs-keeps :
      (gs : List (Gate R)) (ws : List R) (o : ℕ)
      → o < length ws
      → get_or ws o r.zero ≡ d o ⊕ x o
      → get_or (put_inputs gs ws) o r.zero ≡ d o ⊕ x o
  put_inputs-keeps [] ws o lt h = h
  put_inputs-keeps (g ∷ gs) ws o lt h =
      put_inputs-keeps gs (put_input g ws) o (subst (λ m. o < m) (sym (length-put_input g ws)) lt)
        (put_input-keeps g ws o lt h)

  put_input-InputSet :
      (n : ℕ) (inputs : List (ℕ × R)) (g : Gate R) (gs : List (Gate R)) (ws : List R)
      → length ws ≡ n
      → GivesInput n inputs g
      → InputSet n d (put_inputs gs (put_input g ws)) inputs g
  unfolding GivesInput InputSet
  put_input-InputSet n inputs (gate inp o) gs ws size (e, lt) =
      let below : o < length ws = subst (λ m. o < m) (sym size) lt.lower in
      (
        x o,
        e,
        put_inputs-keeps gs (set ws o (d o ⊕ x o)) o
              (subst (λ m. o < m) (sym (length-set ws o (d o ⊕ x o))) below)
              (get_or-set_self ws o (d o ⊕ x o) r.zero below)
            ∙ r.add_comm (d o) (x o),
      )
  put_input-InputSet n inputs _ gs ws size h = record { lower = tt }

  -- What the rounds need of the inputs.
  pub put_inputs-InputSet :
      (n : ℕ) (inputs : List (ℕ × R)) (gs : List (Gate R)) (ws : List R)
      → length ws ≡ n
      → AllGates (GivesInput n inputs) gs
      → AllGates (InputSet n d (put_inputs gs ws) inputs) gs
  put_inputs-InputSet n inputs [] ws size h = record { lower = tt }
  put_inputs-InputSet n inputs (g ∷ gs) ws size (here, h) = (
    put_input-InputSet n inputs g gs ws size here,
    put_inputs-InputSet n inputs gs (put_input g ws) (length-put_input g ws ∙ size) h,
  )
