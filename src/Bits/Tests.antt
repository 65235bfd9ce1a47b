-- ===== src/Bits/Tests.antt =====
-- Runs of the packing and of the index functions, and each theorem at an input.
use qysnc_submission.Common.{
  ℕ, ◌-◌, ◌*◌, ◌/◌, ◌^◌, ◌≤◌, ◌<◌, ◌≡◌, refl, Bool, true, false, List, [], ◌∷◌, some, arith, get_or,
  leb,
}
use qysnc_submission.Bits.{
  pack, unpack, bit_decompose, pos, difference, pid_from_offset, offset_from_pid,
  upper_triangular_to_array,
}
use qysnc_submission.Bits.Ring.{bool_ring}
use qysnc_submission.Bits.Pack.{value, unpack-pack}
use qysnc_submission.Bits.Decompose.{
  bit_decompose-value, pid_from_offset-offset_from_pid, upper_triangular_to_array_inj,
}

-- Ten bits: a full byte and two bits of the next.
abbrev ten_bits : List Bool
ten_bits = true ∷ false ∷ true ∷ true ∷ false ∷ false ∷ false ∷ true ∷ false ∷ true ∷ []

packs_ten : pack 8 ten_bits ≡ 141 ∷ 2 ∷ []
unfolding pack
packs_ten = refl

unpacks_ten : unpack 8 (141 ∷ 2 ∷ []) 10 ≡ some ten_bits
unfolding unpack
unpacks_ten = refl

unpack-pack_example : unpack 8 (pack 8 ten_bits) 10 ≡ some ten_bits
unpack-pack_example = unpack-pack 8 ten_bits (omega arith)

bit_decompose-value_example :
    (value (bit_decompose 1000) ≡ 1000) × (get_or (bit_decompose 1000) 63 false ≡ leb (2 ^ 63) 1000)
bit_decompose-value_example = bit_decompose-value 1000 (omega arith)

pid_from_offset-offset_from_pid_example :
    (pid_from_offset 3 (pos (offset_from_pid 3 1)) ≡ 1)
    × (pid_from_offset 1 (difference 0 (offset_from_pid 3 1)) ≡ 3)
    × (1 ≤ offset_from_pid 3 1)
    × (offset_from_pid 3 1 ≤ 4)
pid_from_offset-offset_from_pid_example =
    pid_from_offset-offset_from_pid 3 1 (omega arith) (omega arith)

upper_triangular_to_array_inj_example :
    (upper_triangular_to_array 3 1 ≡ upper_triangular_to_array 1 3)
    × (upper_triangular_to_array 1 3 < 4 * (4 - 1) / 2)
    × (upper_triangular_to_array 1 3 ≡ upper_triangular_to_array 0 2
        → (◌≡◌ {A = ℕ} 1 0) × (◌≡◌ {A = ℕ} 3 2))
upper_triangular_to_array_inj_example =
    upper_triangular_to_array_inj 4 1 3 0 2 (omega arith) (omega arith) (omega arith) (omega arith)
      (omega arith)
