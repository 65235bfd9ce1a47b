-- ===== src/Asterisk/Protocol/Inputs.antt =====
-- The inputs: what the parties give is what the plain evaluation has, and what they send each other.
use qysnc_submission.Common.{
  Bool-cases, inl, inr, if◌then◌else◌, ℕ, ◌<◌, ◌≡◌, refl, subst, ◌==◌, none, some, List, [], ◌∷◌,
  map, arith,
}
use mathlib.Core.Logic.{Lift}
use qysnc_submission.Common.Map.{nat_eq, lookup}
use qysnc_submission.Ring.{CommRing, ◌⊕◌}
use qysnc_submission.Circuit.{inp, Gate, gate, out}
use qysnc_submission.Asterisk.{Party}
use qysnc_submission.Asterisk.Shared.{Everyone}
use qysnc_submission.Asterisk.Online.Refine.{Ordered, AllGates, WithWire}
use qysnc_submission.Asterisk.Online.Run.{sent_input}
use qysnc_submission.Asterisk.Online.Run.Inputs.{
  sent_input-own, sent_input-other, GetsInput, GivesInput,
}
use qysnc_submission.Asterisk.Offline.Role.{Preparing}
use qysnc_submission.Asterisk.Offline.Sync.{Every}
use qysnc_submission.Asterisk.Offline.Place.{party_of}
use qysnc_submission.Asterisk.Offline.Prepare.Input.{KnowsInput}

module _ {ℓ} {R : Type ℓ} (pid_of : ℕ → ℕ) (x : ℕ → R) (given : ℕ → List (ℕ × R))
    (inputs : List (ℕ × R)) where
  -- The input `x` of an input gate is among the inputs of the party that gives it, and among those of
  -- the plain evaluation.
  unfoldable pub HasInput : Gate R → Type ℓ
  HasInput (gate inp o) =
      (lookup o (given (pid_of o)) ≡ some (x o)) × (lookup o inputs ≡ some (x o))
  HasInput _ = Lift {0, ℓ} Unit

module _ {ℓ} {R : Type ℓ} ⦃r : CommRing R⦄ (x d : ℕ → R) where
  -- What the party that gives an input sends the others.
  abbrev pub sum_sent : ℕ → R
  sum_sent o = d o ⊕ x o

module _ {ℓ κ} {R : Type ℓ} {G : Type κ} ⦃r : CommRing R⦄ (pid_of : ℕ → ℕ) (x d : ℕ → R)
    (given : ℕ → List (ℕ × R)) (inputs : List (ℕ × R)) where
  KnowsInput-GetsInput :
      (g : Gate R) (p : Preparing R G)
      → HasInput pid_of x given inputs g
      → KnowsInput pid_of d g p p.id
      → GetsInput x d (given p.id) (sum_sent x d) (party_of p) g
  unfolding HasInput KnowsInput GetsInput
  KnowsInput-GetsInput (gate inp o) p (has, has') (m, mv, e, own) = (
    m,
    pid_of o,
    mv,
    e,
    λ b.
        let same : pid_of o ≡ p.id = ground arith in
        (subst (λ i. lookup o (given i) ≡ some (x o)) same has, own b),
    λ b. refl,
  )
  KnowsInput-GetsInput _ p has knows = record { lower = tt }

  gates-GetsInput :
      (gs : List (Gate R)) (p : Preparing R G) (ps : List (Preparing R G))
      → AllGates (HasInput pid_of x given inputs) gs
      → AllGates (λ g. Every (λ q. KnowsInput pid_of d g q q.id) (p ∷ ps)) gs
      → AllGates (GetsInput x d (given p.id) (sum_sent x d) (party_of p)) gs
        × AllGates (λ g. Every (λ q. KnowsInput pid_of d g q q.id) ps) gs
  unfolding Every
  gates-GetsInput [] p ps has h = (record { lower = tt }, record { lower = tt })
  gates-GetsInput (g ∷ gs) p ps (has, hass) ((here, others), h) =
      let rest = gates-GetsInput gs p ps hass h in
      ((KnowsInput-GetsInput g p has here, rest.0), (others, rest.1))

  pub parties-GetsInput :
      (gs : List (Gate R)) (ps : List (Preparing R G))
      → AllGates (HasInput pid_of x given inputs) gs
      → AllGates (λ g. Every (λ q. KnowsInput pid_of d g q q.id) ps) gs
      → Everyone (λ p. AllGates (GetsInput x d (given p.id) (sum_sent x d) p) gs) (map party_of ps)
  parties-GetsInput gs [] has h = record { lower = tt }
  parties-GetsInput gs (p ∷ ps) has h =
      let both = gates-GetsInput gs p ps has h in (both.0, parties-GetsInput gs ps has both.1)

module _ {ℓ} {R : Type ℓ} ⦃r : CommRing R⦄ (pid_of : ℕ → ℕ) (x d : ℕ → R) (given : ℕ → List (ℕ × R))
    (inputs : List (ℕ × R)) where
  -- The plain evaluation has the inputs.
  pub gates-GivesInput :
      (n : ℕ) (D0 D : ℕ → Type 0) (gs : List (Gate R))
      → Ordered n D0 D gs
      → AllGates (HasInput pid_of x given inputs) gs
      → AllGates (GivesInput x d n inputs) gs
  unfolding Ordered HasInput GivesInput out
  gates-GivesInput n D0 D [] o has = record { lower = tt }
  gates-GivesInput n D0 D (g ∷ gs) (rd, new, lt, o) (here, has) =
      (one g lt here, gates-GivesInput n D0 (WithWire D (out g)) gs o has)
    where
      one : (g : Gate R) → out g < n → HasInput pid_of x given inputs g → GivesInput x d n inputs g
      one (gate inp o) lt h = (h.1, record { lower = lt })
      one _ lt h = record { lower = tt }

module _ {ℓ} {R : Type ℓ} ⦃r : CommRing R⦄ (pid_of : ℕ → ℕ) (x d : ℕ → R)
    (given : ℕ → List (ℕ × R)) where
  -- For an input gate the party that gives the input sends the sum of the input and its mask, the
  -- others send nothing.
  unfoldable pub SendsInput : Gate R → Party R → Type ℓ
  SendsInput (gate inp o) p =
      sent_input (given p.id) (gate inp o) p
      ≡ (if pid_of o == p.id then some (sum_sent x d o) else none)
  SendsInput _ p = Lift {0, ℓ} Unit

module _ {ℓ κ} {R : Type ℓ} {G : Type κ} ⦃r : CommRing R⦄ (pid_of : ℕ → ℕ) (x d : ℕ → R)
    (given : ℕ → List (ℕ × R)) where
  KnowsInput-SendsInput :
      (inputs : List (ℕ × R)) (g : Gate R) (p : Preparing R G)
      → HasInput pid_of x given inputs g
      → KnowsInput pid_of d g p p.id
      → SendsInput pid_of x d given g (party_of p)
  unfolding HasInput KnowsInput SendsInput
  KnowsInput-SendsInput inputs (gate inp o) p (has, has') (m, mv, e, own) =
      elim (Bool-cases (pid_of o == p.id)) [
        | inl b ↦
            let same : pid_of o ≡ p.id = ground arith in
            let here : lookup o (given p.id) ≡ some (x o) =
              subst (λ i. lookup o (given i) ≡ some (x o)) same has in
            rw (b, sent_input-own (given p.id) (party_of p) o m (pid_of o) mv (x o) e b here, own b)
              refl
        | inr b ↦ rw b (sent_input-other (given p.id) (party_of p) o m (pid_of o) mv e b)
      ]
  KnowsInput-SendsInput inputs _ p has knows = record { lower = tt }

  gates-SendsInput :
      (inputs : List (ℕ × R)) (gs : List (Gate R)) (p : Preparing R G) (ps : List (Preparing R G))
      → AllGates (HasInput pid_of x given inputs) gs
      → AllGates (λ g. Every (λ q. KnowsInput pid_of d g q q.id) (p ∷ ps)) gs
      → AllGates (λ g. SendsInput pid_of x d given g (party_of p)) gs
        × AllGates (λ g. Every (λ q. KnowsInput pid_of d g q q.id) ps) gs
  unfolding Every
  gates-SendsInput inputs [] p ps has h = (record { lower = tt }, record { lower = tt })
  gates-SendsInput inputs (g ∷ gs) p ps (has, hass) ((here, others), h) =
      let rest = gates-SendsInput inputs gs p ps hass h in
      ((KnowsInput-SendsInput inputs g p has here, rest.0), (others, rest.1))

  pub parties-SendsInput :
      (inputs : List (ℕ × R)) (gs : List (Gate R)) (ps : List (Preparing R G))
      → AllGates (HasInput pid_of x given inputs) gs
      → AllGates (λ g. Every (λ q. KnowsInput pid_of d g q q.id) ps) gs
      → Everyone (λ p. AllGates (λ g. SendsInput pid_of x d given g p) gs) (map party_of ps)
  parties-SendsInput inputs gs [] has h = record { lower = tt }
  parties-SendsInput inputs gs (p ∷ ps) has h =
      let both = gates-SendsInput inputs gs p ps has h in
      (both.0, parties-SendsInput inputs gs ps has both.1)
