-- ===== src/Bits/Ring.antt =====
-- `BoolRing` is a commutative ring, and `operator-=` is its subtraction.
use qysnc_submission.Common.{Bool, true, false, xor, ◌≡◌, arith}
use qysnc_submission.Bits.{add, sub, mul}
use qysnc_submission.Ring.{CommRing, ◌⊖◌}

pub add_assoc : (a b c : Bool) → add (add a b) c ≡ add a (add b c)
unfolding add xor
add_assoc a b c = ground arith

pub add_comm : (a b : Bool) → add a b ≡ add b a
unfolding add xor
add_comm a b = ground arith

pub false-add : (a : Bool) → add false a ≡ a
unfolding add xor
false-add a = ground arith

pub add_self : (a : Bool) → add a a ≡ false
unfolding add xor
add_self a = ground arith

pub mul_assoc : (a b c : Bool) → mul (mul a b) c ≡ mul a (mul b c)
unfolding mul
mul_assoc a b c = ground arith

pub mul_comm : (a b : Bool) → mul a b ≡ mul b a
unfolding mul
mul_comm a b = ground arith

pub true-mul : (a : Bool) → mul true a ≡ a
unfolding mul
true-mul a = ground arith

pub mul-add : (a b c : Bool) → mul a (add b c) ≡ add (mul a b) (mul a c)
unfolding mul add xor
mul-add a b c = ground arith

-- Every element is its own negative.
instance abbrev pub bool_ring : CommRing Bool
bool_ring = record {
  zero = false;
  one = true;
  add = add;
  neg = λ a. a;
  mul = mul;
  add_assoc = add_assoc;
  add_comm = add_comm;
  zero-add = false-add;
  neg-add = add_self;
  mul_assoc = mul_assoc;
  mul_comm = mul_comm;
  one-mul = true-mul;
  mul-add = mul-add;
}

-- `BoolRing`'s three operators are those of a commutative ring: `-` undoes `+`, and the product
-- distributes.
bool_ring_lem :
    (a b c : Bool)
    → (sub (add a b) b ≡ a) × (mul a (sub b c) ≡ sub (mul a b) (mul a c)) × (sub a b ≡ a ⊖ b)
unfolding sub add mul xor
bool_ring_lem a b c = (ground arith, ground arith, ground arith)
