-- ===== src/Bits/Decompose.antt =====
-- `bitDecompose`, and the index functions of helpers.cpp.
use native.Mathlib.Nat.{
  mul-le-mul, pow-suc, one-le-pow, div-div-eq-div-mul, mul_comm, min-eq_left, max-eq_right,
  min_comm, max_comm, eq-or-lt_of_le,
}
use qysnc_submission.Common.Arith.{mod_cycle, pow-add-one}
use qysnc_submission.Common.{
  ℕ, zero, suc, ◌+◌, ◌-◌, ◌*◌, ◌/◌, ◌%◌, ◌^◌, ◌≤◌, ◌<◌, ◌≡◌, refl, sym, ◌∙◌, ap, inl, inr, false,
  arith, get_or, u64, leb, ◌==◌,
}
use qysnc_submission.Bits.{
  bit, bits_from, bit_decompose, pos, difference, shifted, remainder, wrap_pid, pid_from_offset,
  offset_from_pid, upper_triangular_to_array,
}
use qysnc_submission.Bits.Pack.{value}

bit_of_parity : (x : ℕ) → bit (x % 2 == 1) ≡ x % 2
bit_of_parity x = ground arith

split_low : (x left : ℕ) → bit (x % 2 == 1) + 2 * (x / 2 % 2 ^ left) ≡ x % 2 ^ suc left
split_low x left =
    omega (arith, bit_of_parity x)
    ∙ sym (mod_cycle 2 (2 ^ left) (omega arith) (one-le-pow left 2 (omega arith)) x)
    ∙ ap (λ p. x % p) (mul_comm 2 (2 ^ left) ∙ sym (pow-suc 2 left))

bits_from-value : (val i left : ℕ) → value (bits_from val i left) ≡ val / 2 ^ i % 2 ^ left
unfolding bits_from value
bits_from-value val i zero = omega arith
bits_from-value val i (suc left) =
    rw (bits_from-value val (i + 1) left, halved) (split_low (val / 2 ^ i) left)
  where
    halved : val / 2 ^ (i + 1) ≡ val / 2 ^ i / 2
    halved =
        ap (λ p. val / p) (pow-add-one i ∙ mul_comm 2 (2 ^ i))
        ∙ sym (div-div-eq-div-mul val (2 ^ i) 2)

get_or-bits_from :
    (val i left k : ℕ)
    → k < left
    → get_or (bits_from val i left) k false ≡ (val / 2 ^ (i + k) % 2 == 1)
unfolding bits_from
get_or-bits_from val i zero k h = absurd (omega arith)
get_or-bits_from val i (suc left) zero h = ap (λ x. val / 2 ^ x % 2 == 1) (omega arith)
get_or-bits_from val i (suc left) (suc k) h =
    get_or-bits_from val (i + 1) left k (omega arith) ∙ ap (λ x. val / 2 ^ x % 2 == 1) (omega arith)

-- The 64 bits of a word give back the word, and the last one, which the comparison gates and
-- `shift` read, tells the upper half of the words from the lower.
pub bit_decompose-value :
    (val : ℕ)
    → val < 2 ^ 64
    → (value (bit_decompose val) ≡ val) × (get_or (bit_decompose val) 63 false ≡ leb (2 ^ 63) val)
unfolding bit_decompose
bit_decompose-value val h = (
  bits_from-value val 0 64 ∙ omega arith,
  get_or-bits_from val 0 64 63 (omega arith) ∙ ground arith,
)

pid_from_offset-forward :
    (id pid : ℕ) → id < 4 → pid < 4 → pid_from_offset id (pos (offset_from_pid id pid)) ≡ pid
unfolding pid_from_offset offset_from_pid shifted remainder wrap_pid
pid_from_offset-forward id pid hi hp = ground arith

pid_from_offset-back :
    (id pid : ℕ)
    → id < 4
    → pid < 4
    → pid_from_offset pid (difference 0 (offset_from_pid id pid)) ≡ id
unfolding pid_from_offset offset_from_pid shifted remainder wrap_pid difference
pid_from_offset-back id pid hi hp = ground arith

-- For the ids 0 to 3, the offset from one party to another leads from the one to the other, its
-- negative leads back, and it lies between 1 and 4.
pub pid_from_offset-offset_from_pid :
    (id pid : ℕ)
    → id < 4
    → pid < 4
    → (pid_from_offset id (pos (offset_from_pid id pid)) ≡ pid)
      × (pid_from_offset pid (difference 0 (offset_from_pid id pid)) ≡ id)
      × (1 ≤ offset_from_pid id pid)
      × (offset_from_pid id pid ≤ 4)
pid_from_offset-offset_from_pid id pid hi hp = (
  pid_from_offset-forward id pid hi hp,
  pid_from_offset-back id pid hi hp,
  unfold offset_from_pid in ground arith,
  unfold offset_from_pid in ground arith,
)

-- The triangle below the row `n`.
abbrev triangle : ℕ → ℕ
triangle n = n * (n - 1) / 2

triangle-suc : (n : ℕ) → triangle (suc n) ≡ triangle n + n
triangle-suc zero = refl
triangle-suc (suc m) =
    omega (arith, ap (λ x. suc (suc m) * x) (pred_of (suc m)), ap (λ x. suc m * x) (pred_of m))
  where
    pred_of : (k : ℕ) → suc k - 1 ≡ k
    pred_of k = omega arith

triangle_mono : (m k : ℕ) → m ≤ k → triangle m ≤ triangle k
triangle_mono m zero h = ap_le (omega arith)
  where
    ap_le : m ≡ 0 → triangle m ≤ 0
    ap_le e = rw e (omega arith)
triangle_mono m (suc k) h = elim (eq-or-lt_of_le h) [
  | inl e ↦ rw e (omega arith)
  | inr lt ↦ omega (arith, triangle-suc k, triangle_mono m k (omega arith))
]

-- The product does not wrap below 2 ^ 32.
product_fits : (j : ℕ) → j < 2 ^ 32 → j * (j - 1) < 2 ^ 64
product_fits j h = omega (
  arith,
  mul-le-mul {n₁ = j} {m₁ = j - 1} {n₂ = 4294967295} {m₂ = 4294967295} (omega arith) (omega arith),
)

upper_triangular_lem :
    (i j : ℕ) → i < j → j < 2 ^ 32 → upper_triangular_to_array i j ≡ triangle j + i
unfolding upper_triangular_to_array
upper_triangular_lem i j h small =
    let pred : u64 (j + 2 ^ 64 - 1) ≡ j - 1 = omega arith in
    rw (min-eq_left {n = i} {m = j} (omega arith), max-eq_right {n = i} {m = j} (omega arith), pred)
      (omega (arith, product_fits j small))

no_clash : (i j k l : ℕ) → i < j → k < l → triangle j + i ≡ triangle l + k → ¬ (j < l)
no_clash i j k l hi hk e lt = omega (arith, triangle-suc j, triangle_mono (suc j) l lt)

-- Among the pairs of numbers below `n`, for `n` up to 2 ^ 32, the index of a pair does not depend on
-- the order in the pair, lies below `n * (n - 1) / 2`, and tells the pair apart from every other one;
-- `size_t` has 64 bits.
pub upper_triangular_to_array_inj :
    (n i j k l : ℕ)
    → n ≤ 2 ^ 32
    → i < j
    → k < l
    → j < n
    → l < n
    → (upper_triangular_to_array j i ≡ upper_triangular_to_array i j)
      × (upper_triangular_to_array i j < n * (n - 1) / 2)
      × (upper_triangular_to_array i j ≡ upper_triangular_to_array k l → (i ≡ k) × (j ≡ l))
upper_triangular_to_array_inj n i j k l few hi hk hj hl = (
  symmetric,
  omega (arith, row, triangle-suc j, triangle_mono (suc j) n hj),
  λ e. same (sym row ∙ e ∙ upper_triangular_lem k l hk (omega arith)),
)
  where
    row : upper_triangular_to_array i j ≡ triangle j + i
    row = upper_triangular_lem i j hi (omega arith)

    symmetric : upper_triangular_to_array j i ≡ upper_triangular_to_array i j
    symmetric = unfold upper_triangular_to_array in rw (min_comm j i, max_comm j i) refl

    same : triangle j + i ≡ triangle l + k → (i ≡ k) × (j ≡ l)
    same e =
        let same_row : j ≡ l =
          omega (arith, no_clash i j k l hi hk e, no_clash k l i j hk hi (sym e)) in
        (omega (arith, ap triangle same_row), same_row)
