-- ===== src/Bits/Pack.antt =====
-- Packing bits into words and back loses nothing, at every width.
use mathlib.Core.Option
use native.Mathlib.Nat.{pow-suc, pow-le-pow_right, lt_of_lt_of_le, div-eq_of_lt, add-div_right}
use native.Mathlib.Decide.{dec_lt}
use qysnc_submission.Common.Arith.{pow-add-one}
use qysnc_submission.Common.{
  ℕ, zero, suc, ◌+◌, ◌-◌, ◌*◌, ◌/◌, ◌%◌, ◌^◌, ◌≤◌, ◌<◌, ◌≡◌, refl, sym, ◌∙◌, ap, ap₂, Bool, true,
  false, List, [], ◌∷◌, ◌++◌, some, arith, length, take, drop, length-drop, length-take,
  take-append-drop, ◌==◌, if◌then◌else◌,
}
use qysnc_submission.Bits.{bit, pack_word, pack_words, pack, unpack_word, unpack_words, unpack}

-- The number that bits stand for, the lowest first.
unfoldable pub value : List Bool → ℕ
value [] = 0
value (b ∷ bs) = bit b + 2 * value bs

word_step :
    (b : Bool) (temp v j : ℕ)
    → (if b then temp + 2 ^ j else temp) + v * 2 ^ (j + 1) ≡ temp + (bit b + 2 * v) * 2 ^ j
word_step true temp v j = omega (arith, ap (λ (t : ℕ). v * t) (pow-add-one j))
word_step false temp v j = omega (arith, ap (λ (t : ℕ). v * t) (pow-add-one j))

low_bit : (b : Bool) (v : ℕ) → ((bit b + 2 * v) % 2 == 1) ≡ b
low_bit b v = ground arith

high_bits : (b : Bool) (v : ℕ) → (bit b + 2 * v) / 2 ≡ v
high_bits b v = ground arith

-- The loop adds the bits from `j` up.
pack_word-value :
    (left j temp : ℕ) (bits : List Bool)
    → pack_word left j temp bits ≡ (temp + value (take left bits) * 2 ^ j, drop left bits)
unfolding pack_word value
pack_word-value zero j temp bits = ap₂ (λ x y. (x, y)) (omega arith) refl
pack_word-value (suc left) j temp [] = ap₂ (λ x y. (x, y)) (omega arith) refl
pack_word-value (suc left) j temp (b ∷ bits) =
    pack_word-value left (j + 1) (if b then temp + 2 ^ j else temp) bits
    ∙ ap (λ x. (x, drop left bits)) (word_step b temp (value (take left bits)) j)

unpack_word-value :
    (left : ℕ) (bits : List Bool)
    → unpack_word left (value (take left bits)) (length bits) ≡ (take left bits, length bits - left)
unfolding unpack_word value
unpack_word-value zero bits = ap₂ (λ x y. (x, y)) refl (omega arith)
unpack_word-value (suc left) [] = ap₂ (λ x y. (x, y)) refl (omega arith)
unpack_word-value (suc left) (b ∷ bits) =
    rw
      (
        low_bit b (value (take left bits)),
        high_bits b (value (take left bits)),
        unpack_word-value left bits,
      )
      (ap (λ x. (b ∷ take left bits, x)) (omega arith))

pack_word_start :
    (w : ℕ) (bits : List Bool) → pack_word w 0 0 bits ≡ (value (take w bits), drop w bits)
pack_word_start w bits = pack_word-value w 0 0 bits ∙ ap (λ x. (x, drop w bits)) (omega arith)

-- One round of both outer loops.
round_trip :
    (w : ℕ) (words : List Bool → List ℕ) (bits : List Bool)
    → unpack_words w (words (drop w bits)) (length (drop w bits)) ≡ some (drop w bits)
    → Option.map
        (λ rest. (unpack_word w (pack_word w 0 0 bits).0 (length bits)).0 ++ rest)
        (unpack_words w
          (words (pack_word w 0 0 bits).1)
          (unpack_word w (pack_word w 0 0 bits).0 (length bits)).1)
      ≡ some bits
round_trip w words bits e =
    rw (pack_word_start w bits, unpack_word-value w bits, ← length-drop w bits, e)
      (ap some (take-append-drop w bits))

-- A word at a time; the fuel is not below the number of entries.
unpack_words-pack_words :
    (w fuel : ℕ) (bits : List Bool)
    → 0 < w
    → length bits ≤ fuel
    → unpack_words w (pack_words w fuel bits) (length bits) ≡ some bits
unfolding unpack_words pack_words
unpack_words-pack_words w zero [] hw h = refl
unpack_words-pack_words w zero (b ∷ bits) hw h = absurd (omega arith)
unpack_words-pack_words w (suc fuel) [] hw h = refl
unpack_words-pack_words w (suc fuel) (b ∷ bits) hw h = round_trip w (pack_words w fuel) (b ∷ bits) (
    unpack_words-pack_words w fuel (drop w (b ∷ bits)) hw (omega (arith, length-drop w (b ∷ bits))))

-- What `unpack` reads from what `pack` wrote, for the same number of entries, is the entries: at
-- 8 bits for `BoolRing`, at 64 for `packBool` and `unpackBool`.
pub unpack-pack :
    (w : ℕ) (bits : List Bool) → 0 < w → unpack w (pack w bits) (length bits) ≡ some bits
unfolding unpack pack
unpack-pack w bits hw = unpack_words-pack_words w (length bits) bits hw (omega arith)

bit-le : (b : Bool) → bit b ≤ 1
bit-le b = ground arith

value-lt : (bits : List Bool) → value bits < 2 ^ length bits
unfolding value
value-lt [] = omega arith
value-lt (b ∷ bits) = omega (arith, bit-le b, value-lt bits, pow-suc 2 (length bits))

abbrev pub All {ℓ κ} : {A : Type ℓ} → (A → Type κ) → List A → Type κ
All P [] = Unit
All P (x ∷ xs) = P x × All P xs

value_take-lt : (w : ℕ) (bits : List Bool) → value (take w bits) < 2 ^ w
value_take-lt w bits =
    lt_of_lt_of_le (value-lt (take w bits))
      (pow-le-pow_right (omega arith) (omega (arith, length-take w bits)))

pack_words-lt :
    (w fuel : ℕ) (bits : List Bool) → All (λ word. word < 2 ^ w) (pack_words w fuel bits)
unfolding pack_words
pack_words-lt w zero bits = tt
pack_words-lt w (suc fuel) [] = tt
pack_words-lt w (suc fuel) (b ∷ bits) =
    rw (pack_word_start w (b ∷ bits))
      (value_take-lt w (b ∷ bits), pack_words-lt w fuel (drop w (b ∷ bits)))

-- The number of words for `n` entries.
abbrev pub words_for : ℕ → ℕ → ℕ
words_for w n = (n + w - 1) / w

words_for-zero : (w : ℕ) → 0 < w → words_for w 0 ≡ 0
words_for-zero w hw = div-eq_of_lt (omega arith)

words_for-more : (w n : ℕ) → 0 < w → 0 < n → words_for w n ≡ suc (words_for w (n - w))
words_for-more w n hw hn = elim (dec_lt w n) [
  | yes p ↦ ap (λ x. x / w) (omega arith) ∙ add-div_right (n - w + w - 1) hw ∙ omega arith
  | no p ↦
      ap (λ x. x / w) (omega arith)
      ∙ add-div_right (n - 1) hw
      ∙ omega (arith, div-eq_of_lt {n = n - 1} {m = w} (omega arith), few (omega arith))
]
  where
    few : n ≤ w → words_for w (n - w) ≡ 0
    few h = ap (words_for w) (omega arith) ∙ words_for-zero w hw

length-pack_words :
    (w fuel : ℕ) (bits : List Bool)
    → 0 < w
    → length bits ≤ fuel
    → length (pack_words w fuel bits) ≡ words_for w (length bits)
unfolding pack_words
length-pack_words w zero [] hw h = sym (words_for-zero w hw)
length-pack_words w zero (b ∷ bits) hw h = absurd (omega arith)
length-pack_words w (suc fuel) [] hw h = sym (words_for-zero w hw)
length-pack_words w (suc fuel) (b ∷ bits) hw h = rw (pack_word_start w (b ∷ bits)) (
    ap suc (
      length-pack_words w fuel (drop w (b ∷ bits)) hw (omega (arith, length-drop w (b ∷ bits)))
      ∙ ap (words_for w) (length-drop w (b ∷ bits)))
    ∙ sym (words_for-more w (suc (length bits)) hw (omega arith)))

-- `pack` writes `(n + w - 1) / w` words for `n` entries, the number that the receiver of a packed
-- message asks for, and each fits its `w` bits.
pub length-pack :
    (w : ℕ) (bits : List Bool)
    → 0 < w
    → (length (pack w bits) ≡ (length bits + w - 1) / w) × All (λ word. word < 2 ^ w) (pack w bits)
unfolding pack
length-pack w bits hw =
    (length-pack_words w (length bits) bits hw (omega arith), pack_words-lt w (length bits) bits)
