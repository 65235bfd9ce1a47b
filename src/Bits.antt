-- ===== src/Bits.antt =====
-- code/src/utils/types.{h,cpp} (`BoolRing`) and the packing of bits of code/src/utils/helpers.{h,cpp}
-- and code/src/io/netmp.h (`packBool`, `unpackBool`, the words of `sendBool` and `recvBool`).
-- A `BoolRing` is its bit. `res[i] |= 1 << j` sets a bit that is still clear, so a word is the sum of
-- its bits; a word of `w` bits is below `2 ^ w` and nothing wraps. The functions of party ids and of
-- triangular indices of helpers.cpp are here too.
pub mod Ring
pub mod Pack
pub mod Decompose
mod Tests
use mathlib.Core.Option
use qysnc_submission.Common.{
  u64, ℕ, zero, suc, ◌+◌, ◌-◌, ◌*◌, ◌/◌, ◌%◌, ◌^◌, min, max, Bool, true, false, not, xor, ◌&&◌,
  List, [], ◌∷◌, ◌++◌, Option, none, some, ◌==◌, ltb, if◌then◌else◌, length,
}

-- `BoolRing(int)`
pub of_int : ℕ → Bool
of_int n = not (n == 0)

-- `operator+=`; `operator-=` is the same.
unfoldable pub add : Bool → Bool → Bool
add a b = xor a b

pub sub : Bool → Bool → Bool
unfolding add
sub a b = add a b

-- `operator*=`
unfoldable pub mul : Bool → Bool → Bool
mul a b = a && b

abbrev pub bit : Bool → ℕ
bit true = 1
bit false = 0

-- The inner loop of `pack` at the bit `j`, with `left` places left: the word, and the entries that
-- did not fit.
pub pack_word : ℕ → ℕ → ℕ → List Bool → ℕ × List Bool
pack_word zero j temp bits = (temp, bits)
pack_word (suc left) j temp [] = (temp, [])
pack_word (suc left) j temp (b ∷ bits) =
    pack_word left (j + 1) (if b then temp + 2 ^ j else temp) bits

-- The outer loop, one round for each word; `fuel` bounds the rounds.
pub pack_words : ℕ → ℕ → List Bool → List ℕ
unfolding pack_word
pack_words w zero bits = []
pack_words w (suc fuel) [] = []
pack_words w (suc fuel) (b ∷ bits) =
    let (word, more) = pack_word w 0 0 (b ∷ bits) in word ∷ pack_words w fuel more

-- `BoolRing::pack` at 8 bits, `packBool` and the words of `sendBool` at 64. A word takes an entry at
-- least, so the number of entries is fuel enough.
pub pack : ℕ → List Bool → List ℕ
unfolding pack_words
pack w bits = pack_words w (length bits) bits

-- The inner loop of `unpack`: the entries that the word gives, and the number still wanted.
pub unpack_word : ℕ → ℕ → ℕ → List Bool × ℕ
unpack_word zero temp len = ([], len)
unpack_word (suc left) temp zero = ([], 0)
unpack_word (suc left) temp (suc len) =
    let (rest, wanted) = unpack_word left (temp / 2) len in ((temp % 2 == 1) ∷ rest, wanted)

-- The outer loop, one round for each word. `none`: a word is read past the end.
pub unpack_words : ℕ → List ℕ → ℕ → Option (List Bool)
unfolding unpack_word
unpack_words w packed zero = some []
unpack_words w [] (suc len) = none
unpack_words w (word ∷ packed) (suc len) =
    let (bits, wanted) = unpack_word w word (suc len) in
    Option.map (λ rest. bits ++ rest) (unpack_words w packed wanted)

-- `BoolRing::unpack` at 8 bits, `unpackBool` and the words of `recvBool` at 64.
pub unpack : ℕ → List ℕ → ℕ → Option (List Bool)
unfolding unpack_words
unpack w packed len = unpack_words w packed len

-- `bitDecompose` of a word of `w` bits, from the bit `i` up.
pub bits_from : ℕ → ℕ → ℕ → List Bool
bits_from val i zero = []
bits_from val i (suc left) = (val / 2 ^ i % 2 == 1) ∷ bits_from val (i + 1) left

pub bit_decompose : ℕ → List Bool
unfolding bits_from
bit_decompose val = bits_from val 0 64

-- `int`, without its bounds: `negsuc n` is `-(n + 1)`.
pub data ℤ : Type 0 where
  pos : ℕ → ℤ
  negsuc : ℕ → ℤ

-- `a - b` as an `int`.
pub difference : ℕ → ℕ → ℤ
difference a b = if ltb a b then negsuc (b - a - 1) else pos (a - b)

-- `a + z` for a party id `a`.
pub shifted : ℕ → ℤ → ℤ
unfolding difference
shifted a (pos n) = pos (a + n)
shifted a (negsuc n) = difference a (n + 1)

-- `z % 4`, which has the sign of `z`.
pub remainder : ℤ → ℤ
unfolding difference
remainder (pos n) = pos (n % 4)
remainder (negsuc n) = difference 0 ((n + 1) % 4)

-- `pid + 4` for a negative `pid`.
pub wrap_pid : ℤ → ℕ
wrap_pid (pos n) = n
wrap_pid (negsuc n) = 4 - (n + 1)

-- `pidFromOffset`, for party ids that are not negative.
pub pid_from_offset : ℕ → ℤ → ℕ
unfolding shifted remainder wrap_pid
pid_from_offset id offset = wrap_pid (remainder (shifted id offset))

-- `offsetFromPid`
pub offset_from_pid : ℕ → ℕ → ℕ
offset_from_pid id pid = if ltb id pid then pid - id else 4 + pid - id

-- `upperTriangularToArray`, in `size_t` of 64 bits.
pub upper_triangular_to_array : ℕ → ℕ → ℕ
upper_triangular_to_array i j =
    let mn = min i j in let mx = max i j in u64 (u64 (mx * u64 (mx + 2 ^ 64 - 1)) / 2 + mn)
