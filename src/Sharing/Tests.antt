-- ===== src/Sharing/Tests.antt =====
-- The linear operations on bits shared by two parties, and each theorem at an input.
use qysnc_submission.Common.{some, xor, ℕ, ◌≡◌, refl, Bool, true, false, List, [], ◌∷◌, arith}
use qysnc_submission.Ring.{◌⊕◌}
use qysnc_submission.Bits.{add, mul}
use qysnc_submission.Bits.Ring.{bool_ring}
use qysnc_submission.Sharing.Dealer.{dealer_follows}
use qysnc_submission.Sharing.{
  TpShare, plus, times, minus, get_aas, tp_plus, tp_times, tp_minus, AuthAddShare, add_const,
  add_with_adder,
}
use qysnc_submission.Sharing.Mac.{value_of, key_of, IsAuthentic, add_all, add_all-IsAuthentic}

abbrev share : Bool → Bool → Bool → AuthAddShare Bool
share k v t = record { key_sh = k; value = v; tag = t }

-- The key is 1 (true and false added); the values are 1 and 0.
abbrev shares_one : List (AuthAddShare Bool)
shares_one = share true false true ∷ share false true false ∷ []

abbrev shares_zero : List (AuthAddShare Bool)
shares_zero = share true true true ∷ share false true true ∷ []

one-IsAuthentic : IsAuthentic shares_one
unfolding add mul xor
one-IsAuthentic = refl

zero-IsAuthentic : IsAuthentic shares_zero
unfolding add mul xor
zero-IsAuthentic = refl

same_key : key_of shares_one ≡ key_of shares_zero
unfolding add xor
same_key = refl

add_all-IsAuthentic_example :
    IsAuthentic (add_all 1 shares_one true 2)
    × (value_of (add_all 1 shares_one true 2) ≡ value_of shares_one ⊕ true)
    × ((x : AuthAddShare Bool) (pid : ℕ) → add_const x true pid ≡ add_with_adder x true pid 1)
add_all-IsAuthentic_example =
    add_all-IsAuthentic shares_one true 2 (omega arith) (omega arith) one-IsAuthentic

-- The dealer's view, with a place for itself first.
abbrev dealt_one : TpShare Bool
dealt_one = record {
  key = true;
  key_shs = false ∷ true ∷ false ∷ [];
  values = false ∷ false ∷ true ∷ [];
  tags = false ∷ true ∷ false ∷ [];
}

abbrev dealt_zero : TpShare Bool
dealt_zero = record {
  key = true;
  key_shs = false ∷ true ∷ false ∷ [];
  values = false ∷ true ∷ true ∷ [];
  tags = false ∷ true ∷ true ∷ [];
}

second_one : get_aas dealt_one 2 ≡ some (share false true false)
unfolding get_aas
second_one = refl

second_zero : get_aas dealt_zero 2 ≡ some (share false true true)
unfolding get_aas
second_zero = refl

dealer_follows_example :
    (get_aas (tp_plus dealt_one dealt_zero) 2
      ≡ some (plus (share false true false) (share false true true)))
    × (get_aas (tp_times dealt_one true) 2 ≡ some (times (share false true false) true))
    × (get_aas (tp_minus dealt_one dealt_zero) 2
        ≡ some (minus (share false true false) (share false true true)))
dealer_follows_example = dealer_follows dealt_one dealt_zero true 1 second_one second_zero
