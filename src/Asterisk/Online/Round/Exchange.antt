-- ===== src/Asterisk/Online/Round/Exchange.antt =====
-- The exchange of slices gives every party the sums of what all parties sent.
use qysnc_submission.Common.{
  ℕ, zero, suc, ◌+◌, ◌-◌, ◌*◌, ◌%◌, ◌≤◌, ◌<◌, ◌≡◌, refl, sym, ◌∙◌, ap, ap₂, subst, List, [], ◌∷◌,
  ◌++◌, map, length, take, drop, replicate, append-nil, append_assoc, arith, length-take,
  length-drop, length-replicate, take_all, get_or, get_or-replicate,
}
use native.Mathlib.Nat.{suc-mul, zero-mul, div-add-mod}
use qysnc_submission.Ring.{CommRing, ◌⊕◌}
use qysnc_submission.Ring.Laws.{add-zero, total as sum_of}
use qysnc_submission.Asterisk.Online.Round.{
  add_vector, add_at, add_up, per_party_comm, slice_size, online_comm_to_party, agg_values_send,
  gather, exchange,
}

module _ {ℓ} {R : Type ℓ} ⦃r : CommRing R⦄ where
  add_vector-nil : (v : List R) → add_vector v [] ≡ v
  unfolding add_vector
  add_vector-nil [] = refl
  add_vector-nil (y ∷ v) = refl

  length-add_vector : (v x : List R) → length (add_vector v x) ≡ length v
  unfolding add_vector
  length-add_vector [] x = refl
  length-add_vector (y ∷ v) [] = refl
  length-add_vector (y ∷ v) (a ∷ x) = ap suc (length-add_vector v x)

  take-add_vector :
      (n : ℕ) (v x : List R) → take n (add_vector v x) ≡ add_vector (take n v) (take n x)
  unfolding add_vector
  take-add_vector zero v x = refl
  take-add_vector (suc n) [] x = refl
  take-add_vector (suc n) (y ∷ v) [] = refl
  take-add_vector (suc n) (y ∷ v) (a ∷ x) = ap (◌∷◌ (y ⊕ a)) (take-add_vector n v x)

  drop-add_vector :
      (n : ℕ) (v x : List R) → drop n (add_vector v x) ≡ add_vector (drop n v) (drop n x)
  unfolding add_vector
  drop-add_vector zero v x = refl
  drop-add_vector (suc n) [] x = refl
  drop-add_vector (suc n) (y ∷ v) [] = sym (add_vector-nil (drop n v))
  drop-add_vector (suc n) (y ∷ v) (a ∷ x) = drop-add_vector n v x

  -- A slice of the sums is the sum of the slices.
  slice-add_up :
      (n m : ℕ) (acc : List R) (vs : List (List R))
      → take n (drop m (add_up acc vs))
        ≡ add_up (take n (drop m acc)) (map (λ v. take n (drop m v)) vs)
  unfolding add_up
  slice-add_up n m acc [] = refl
  slice-add_up n m acc (v ∷ vs) =
      slice-add_up n m (add_vector acc v) vs
      ∙ ap (λ z. add_up z (map (λ v. take n (drop m v)) vs))
          (ap (take n) (drop-add_vector m acc v) ∙ take-add_vector n (drop m acc) (drop m v))

  length-add_up : (acc : List R) (vs : List (List R)) → length (add_up acc vs) ≡ length acc
  unfolding add_up
  length-add_up acc [] = refl
  length-add_up acc (v ∷ vs) = length-add_up (add_vector acc v) vs ∙ length-add_vector acc v

  drop-replicate : (m n : ℕ) (x : R) → drop m (replicate n x) ≡ replicate (n - m) x
  drop-replicate zero n x = ap (λ k. replicate k x) (omega arith)
  drop-replicate (suc m) zero x = let e : 0 ≡ 0 - suc m = omega arith in ap (λ k. replicate k x) e
  drop-replicate (suc m) (suc n) x = drop-replicate m n x ∙ ap (λ k. replicate k x) (omega arith)

  take-replicate : (m n : ℕ) (x : R) → m ≤ n → take m (replicate n x) ≡ replicate m x
  take-replicate zero n x h = refl
  take-replicate (suc m) zero x h = absurd (omega arith)
  take-replicate (suc m) (suc n) x h = ap (◌∷◌ x) (take-replicate m n x (omega arith))

  -- What a party adds up is its slice of the sums.
  agg_values_send-slice :
      (nP total pid : ℕ) (comms : List (List R))
      → (pid - 1) * per_party_comm nP total + slice_size nP total pid ≤ total
      → agg_values_send nP total pid comms
        ≡ take
            (slice_size nP total pid)
            (drop ((pid - 1) * per_party_comm nP total) (add_up (replicate total r.zero) comms))
  unfolding agg_values_send online_comm_to_party
  agg_values_send-slice nP total pid comms h =
      let start = (pid - 1) * per_party_comm nP total in
      let size = slice_size nP total pid in
      sym (
        slice-add_up size start (replicate total r.zero) comms
        ∙ ap (λ z. add_up z (map (λ v. take size (drop start v)) comms))
            (ap (take size) (drop-replicate start total r.zero)
              ∙ take-replicate size (total - start) r.zero (omega arith)))

  add_vector-zeros :
      (n : ℕ) (x : List R)
      → length x ≤ n
      → add_vector (replicate n r.zero) x ≡ x ++ replicate (n - length x) r.zero
  unfolding add_vector
  add_vector-zeros zero [] h = refl
  add_vector-zeros zero (a ∷ x) h = absurd (omega arith)
  add_vector-zeros (suc n) [] h =
      let e : suc n ≡ suc n - 0 = omega arith in ap (λ k. replicate k r.zero) e
  add_vector-zeros (suc n) (a ∷ x) h =
      ap₂ ◌∷◌ (r.zero-add a)
        (add_vector-zeros n x (omega arith) ∙ ap (λ k. x ++ replicate k r.zero) (omega arith))

  add_at-append :
      (n : ℕ) (a b x : List R) → length a ≡ n → add_at n x (a ++ b) ≡ a ++ add_vector b x
  unfolding add_at
  add_at-append zero [] b x h = refl
  add_at-append zero (y ∷ a) b x h = absurd (omega arith)
  add_at-append (suc n) [] b x h = absurd (omega arith)
  add_at-append (suc n) (y ∷ a) b x h = ap (◌∷◌ y) (add_at-append n a b x (omega arith))

  -- The places below `m` hold the sums, the others zero.
  abbrev filled : ℕ → ℕ → List R → List R
  filled total m s = take m s ++ replicate (total - m) r.zero

  take_next :
      (m n : ℕ) (s : List R) → m + n ≤ length s → take m s ++ take n (drop m s) ≡ take (m + n) s
  take_next zero n s h = ap (λ k. take k s) (omega arith)
  take_next (suc m) n [] h = absurd (omega arith)
  take_next (suc m) n (a ∷ s) h =
      let e : suc (m + n) ≡ suc m + n = omega arith in
      ap (◌∷◌ a) (take_next m n s (omega arith)) ∙ ap (λ k. take k (a ∷ s)) e

  fill_next :
      (total m n : ℕ) (s : List R)
      → length s ≡ total
      → m + n ≤ total
      → add_at m (take n (drop m s)) (filled total m s) ≡ filled total (m + n) s
  fill_next total m n s e h =
      let size : length (take n (drop m s)) ≡ n =
        omega (arith, length-take n (drop m s), length-drop m s) in
      add_at-append m (take m s) (replicate (total - m) r.zero) (take n (drop m s))
        (omega (arith, length-take m s))
      ∙ ap (λ z. take m s ++ z) (add_vector-zeros (total - m) (take n (drop m s)) (omega arith))
      ∙ sym (append_assoc (take m s) (take n (drop m s)) _)
      ∙ ap₂ ◌++◌ (take_next m n s (omega arith)) (ap (λ k. replicate k r.zero) (omega arith))

  -- The turn of the party `i + 1`.
  add_slice :
      (nP total i n : ℕ) (comms : List (List R))
      → slice_size nP total (suc i) ≡ n
      → i * per_party_comm nP total + n ≤ total
      → add_at
          ((suc i - 1) * per_party_comm nP total)
          (agg_values_send nP total (suc i) comms)
          (filled total (i * per_party_comm nP total) (add_up (replicate total r.zero) comms))
        ≡ filled total (i * per_party_comm nP total + n) (add_up (replicate total r.zero) comms)
  add_slice nP total i n comms size h =
      let per = per_party_comm nP total in
      let sums = add_up (replicate total r.zero) comms in
      let start : (suc i - 1) * per ≡ i * per = ap (λ k. k * per) (omega arith) in
      ap₂ (λ m x. add_at m x (filled total (i * per) sums)) start
        (agg_values_send-slice nP total (suc i) comms
            (subst (λ m. m + slice_size nP total (suc i) ≤ total) (sym start) (omega arith))
          ∙ ap₂ (λ k m. take k (drop m sums)) size start)
      ∙ fill_next total (i * per) n sums
          (length-add_up (replicate total r.zero) comms ∙ length-replicate total r.zero) h

  -- Before the turn of the party `i + 1`, with `left` parties after it.
  gather-filled :
      (nP total i left : ℕ) (comms : List (List R))
      → i + suc left ≡ nP
      → i * per_party_comm nP total + suc left * per_party_comm nP total + total % nP ≡ total
      → gather nP total comms
          (suc i)
          (suc left)
          (filled total (i * per_party_comm nP total) (add_up (replicate total r.zero) comms))
        ≡ add_up (replicate total r.zero) comms
  unfolding gather slice_size
  gather-filled nP total i zero comms e h =
      let per = per_party_comm nP total in
      let sums = add_up (replicate total r.zero) comms in
      let size : slice_size nP total (suc i) ≡ per + total % nP = ground arith in
      let end : i * per + (per + total % nP) ≡ total = omega (arith, suc-mul 0 per) in
      let len : length sums ≡ total =
        length-add_up (replicate total r.zero) comms ∙ length-replicate total r.zero in
      let left : 0 ≡ total - total = omega arith in
      add_slice nP total i (per + total % nP) comms size (omega arith)
      ∙ ap (λ m. filled total m sums) end
      ∙ ap₂ (λ x k. x ++ replicate k r.zero) (take_all total sums (omega arith)) (sym left)
      ∙ append-nil sums
  gather-filled nP total i (suc left) comms e h =
      let per = per_party_comm nP total in
      let sums = add_up (replicate total r.zero) comms in
      let size : slice_size nP total (suc i) ≡ per = ground arith in
      ap (gather nP total comms (suc (suc i)) (suc left)) (
        add_slice nP total i per comms size (omega (arith, suc-mul (suc left) per))
        ∙ ap (λ m. filled total m sums) (sym (suc-mul i per)))
      ∙ gather-filled nP total (suc i) left comms (omega arith)
          (omega (arith, suc-mul i per, suc-mul (suc left) per))

  -- Each party gets the sums of the whole vectors.
  pub exchange-add_up :
      (nP total : ℕ) (comms : List (List R))
      → 1 ≤ nP
      → exchange nP total comms ≡ add_up (replicate total r.zero) comms
  unfolding exchange
  exchange-add_up zero total comms h = absurd (omega arith)
  exchange-add_up (suc n) total comms h =
      let per = per_party_comm (suc n) total in
      let start : filled total (0 * per) (add_up (replicate total r.zero) comms)
          ≡ replicate total r.zero =
        ap₂ (λ m k. take m (add_up (replicate total r.zero) comms) ++ replicate k r.zero)
          (zero-mul per) (omega (arith, zero-mul per)) in
      ap (gather (suc n) total comms 1 (suc n)) (sym start)
      ∙ gather-filled (suc n) total 0 n comms (omega arith)
          (omega (arith, zero-mul per, div-add-mod total (suc n)))

  get_or-add_vector :
      (v x : List R) (j : ℕ)
      → j < length v
      → get_or (add_vector v x) j r.zero ≡ get_or v j r.zero ⊕ get_or x j r.zero
  unfolding add_vector
  get_or-add_vector [] x j h = absurd (omega arith)
  get_or-add_vector (y ∷ v) [] j h = sym (add-zero (get_or (y ∷ v) j r.zero))
  get_or-add_vector (y ∷ v) (a ∷ x) zero h = refl
  get_or-add_vector (y ∷ v) (a ∷ x) (suc j) h = get_or-add_vector v x j (omega arith)

  -- The values that the parties have at one place.
  abbrev pub column : ℕ → List (List R) → List R
  column j [] = []
  column j (v ∷ vs) = get_or v j r.zero ∷ column j vs

  get_or-add_up :
      (acc : List R) (vs : List (List R)) (j : ℕ)
      → j < length acc
      → get_or (add_up acc vs) j r.zero ≡ get_or acc j r.zero ⊕ sum_of (column j vs)
  unfolding add_up
  get_or-add_up acc [] j h = sym (add-zero (get_or acc j r.zero))
  get_or-add_up acc (v ∷ vs) j h =
      get_or-add_up (add_vector acc v) vs j (omega (arith, length-add_vector acc v))
      ∙ ap (λ z. z ⊕ sum_of (column j vs)) (get_or-add_vector acc v j h)
      ∙ r.add_assoc (get_or acc j r.zero) (get_or v j r.zero) (sum_of (column j vs))

  -- With any number of parties from 1 on, the exchange of slices gives each party a vector of
  -- `total` values, which holds at a place `j` below `total` the sum of what the parties have there;
  -- also where the number of values is no multiple of the number of parties, or below it.
  pub exchange-sum :
      (nP total j : ℕ) (comms : List (List R))
      → 1 ≤ nP
      → j < total
      → (length (exchange nP total comms) ≡ total)
        × (get_or (exchange nP total comms) j r.zero ≡ sum_of (column j comms))
  exchange-sum nP total j comms h lt =
      let zeros = replicate total r.zero in
      let size : length zeros ≡ total = length-replicate total r.zero in
      (
        ap length (exchange-add_up nP total comms h) ∙ length-add_up zeros comms ∙ size,
        ap (λ z. get_or z j r.zero) (exchange-add_up nP total comms h)
            ∙ get_or-add_up zeros comms j (omega arith)
            ∙ ap (λ z. z ⊕ sum_of (column j comms)) (get_or-replicate total j r.zero)
            ∙ r.zero-add (sum_of (column j comms)),
      )
