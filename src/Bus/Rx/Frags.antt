-- ===== src/Bus/Rx/Frags.antt =====
-- The fragments of one message, as `Partial` collects them: each is missing (empty) or the one that
-- was sent, and `received` counts those that are there.
use qysnc_submission.Common.{
  ℕ, zero, suc, ◌+◌, ◌≤◌, ◌<◌, ◌≡◌, refl, ap, ap₂, ◌⊎◌, inl, inr, true, false, List, [], ◌∷◌,
  length, get_or, set, replicate, if◌then◌else◌, arith,
}
use qysnc_submission.Bus.Rx.{is_empty}

-- The fragments that have arrived.
unfoldable pub filled : List (List ℕ) → ℕ
filled [] = 0
filled (f ∷ fs) = if is_empty f then filled fs else filled fs + 1

unfoldable pub Fits : List (List ℕ) → List (List ℕ) → Type 0
Fits [] [] = Unit
Fits (f ∷ fs) (m ∷ ms) = ((f ≡ []) ⊎ (f ≡ m)) × Fits fs ms
Fits _ _ = ⊥

unfoldable pub AllFull : List (List ℕ) → Type 0
AllFull [] = Unit
AllFull (m ∷ ms) = (is_empty m ≡ false) × AllFull ms

pub Fits-length : (fs ms : List (List ℕ)) → Fits fs ms → length fs ≡ length ms
unfolding Fits
Fits-length [] [] h = refl
Fits-length [] (m ∷ ms) h = absurd h
Fits-length (f ∷ fs) [] h = absurd h
Fits-length (f ∷ fs) (m ∷ ms) (h, hs) = ap suc (Fits-length fs ms hs)

pub filled-le : (fs : List (List ℕ)) → filled fs ≤ length fs
unfolding filled
filled-le [] = omega arith
filled-le (f ∷ fs) = ground (arith, filled-le fs)

-- When the count is the number of fragments, all of them are there.
pub Fits-filled : (fs ms : List (List ℕ)) → Fits fs ms → filled fs ≡ length ms → fs ≡ ms
unfolding Fits filled
Fits-filled [] [] h e = refl
Fits-filled [] (m ∷ ms) h e = absurd h
Fits-filled (f ∷ fs) [] h e = absurd h
Fits-filled ([] ∷ fs) (m ∷ ms) (h, hs) e =
    absurd (omega (arith, filled-le fs, Fits-length fs ms hs))
Fits-filled ((b ∷ f) ∷ fs) (m ∷ ms) (inl h, hs) e = absurd (ground arith)
Fits-filled ((b ∷ f) ∷ fs) (m ∷ ms) (inr h, hs) e = ap₂ ◌∷◌ h (Fits-filled fs ms hs (omega arith))

pub Fits-set : (fs ms : List (List ℕ)) (i : ℕ) → Fits fs ms → Fits (set fs i (get_or ms i [])) ms
unfolding Fits
Fits-set [] [] i h = h
Fits-set [] (m ∷ ms) i h = h
Fits-set (f ∷ fs) [] i h = absurd h
Fits-set (f ∷ fs) (m ∷ ms) zero (h, hs) = (inr refl, hs)
Fits-set (f ∷ fs) (m ∷ ms) (suc i) (h, hs) = (h, Fits-set fs ms i hs)

pub filled-set :
    (fs : List (List ℕ)) (i : ℕ) (m : List ℕ)
    → i < length fs
    → is_empty (get_or fs i []) ≡ true
    → is_empty m ≡ false
    → filled (set fs i m) ≡ filled fs + 1
unfolding filled
filled-set [] i m lt e ne = absurd (omega arith)
filled-set (f ∷ fs) zero m lt e ne = ground arith
filled-set (f ∷ fs) (suc i) m lt e ne = ground (arith, filled-set fs i m (omega arith) e ne)

pub Fits-replicate : (ms : List (List ℕ)) → Fits (replicate (length ms) []) ms
unfolding Fits
Fits-replicate [] = tt
Fits-replicate (m ∷ ms) = (inl refl, Fits-replicate ms)

pub filled-replicate : (n : ℕ) → filled (replicate n []) ≡ 0
unfolding filled
filled-replicate zero = refl
filled-replicate (suc n) = filled-replicate n

pub AllFull-get :
    (ms : List (List ℕ)) (i : ℕ) → AllFull ms → i < length ms → is_empty (get_or ms i []) ≡ false
unfolding AllFull
AllFull-get [] i h lt = absurd (omega arith)
AllFull-get (m ∷ ms) zero (h, hs) lt = h
AllFull-get (m ∷ ms) (suc i) (h, hs) lt = AllFull-get ms i hs (omega arith)
