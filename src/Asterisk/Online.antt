-- ===== src/Asterisk/Online.antt =====
-- code/src/asterisk/online_evaluator_load_balanced.cpp, `OnlineEvaluator`: the rounds of the online
-- phase. A wire holds its value plus its mask; every party knows the sum and a share of the mask.
-- `kEqz` and `kLtz` gates, which run Boolean circuits of their own, are left out.
pub mod Identities
pub mod Products
pub mod Round
pub mod Setup
pub mod Sends
pub mod Refine
pub mod Run
pub mod Verify
use qysnc_submission.Common.{
  ℕ, zero, suc, ◌+◌, List, [], ◌∷◌, ◌++◌, Option, none, some, ◌==◌, set, get_or,
}
use qysnc_submission.Ring.{CommRing, ◌⊕◌, ◌⊗◌, ◌⊖◌}
use qysnc_submission.Sharing.{AuthAddShare, plus, times, minus, add_const}
use qysnc_submission.Circuit.{
  add, mul, mul3, mul4, sub, const_add, const_mul, dotprod, Gate, gate, fin2, fin3, fin4, fin1,
  simd, const_op, out,
}
use qysnc_submission.Asterisk.{
  PreprocGate, preproc_mult, preproc_mult3, preproc_mult4, preproc_dotp, mask, Party, preproc_at,
  mask_at, wire_at,
}

module _ {ℓ} {R : Type ℓ} ⦃r : CommRing R⦄ where
  -- `evaluateGatesAtDepthPartySend`: the share of the masked output of a gate, by the gate's type.
  pub mul_share : Party R → ℕ → ℕ → AuthAddShare R → AuthAddShare R → AuthAddShare R
  unfolding plus times minus add_const
  mul_share p in1 in2 m mask_prod =
      add_const
        (minus (minus (plus m mask_prod) (times (mask_at p in1) (wire_at p in2)))
          (times (mask_at p in2) (wire_at p in1)))
        (wire_at p in1 ⊗ wire_at p in2) p.id

  -- `kMul3`, with the steps on `q_share` in their order.
  pub mul3_share :
      Party R
      → ℕ
      → ℕ
      → ℕ
      → AuthAddShare R
      → AuthAddShare R
      → AuthAddShare R
      → AuthAddShare R
      → AuthAddShare R
      → AuthAddShare R
  unfolding plus times minus add_const
  mul3_share p in1 in2 in3 m mask_ab mask_ac mask_bc mask_abc =
      let del_a = mask_at p in1 in
      let del_b = mask_at p in2 in
      let del_c = mask_at p in3 in
      let m_a = wire_at p in1 in
      let m_b = wire_at p in2 in
      let m_c = wire_at p in3 in
      let q1 = minus m mask_abc in
      let q2 = plus q1 (plus (plus (times mask_bc m_a) (times mask_ac m_b)) (times mask_ab m_c)) in
      let q3 = minus q2 (
        plus (plus (times (times del_c m_a) m_b) (times (times del_b m_a) m_c))
          (times (times del_a m_b) m_c)) in
      add_const q3 (m_a ⊗ m_b ⊗ m_c) p.id

  -- `kMul4`.
  pub mul4_share :
      Party R
      → ℕ
      → ℕ
      → ℕ
      → ℕ
      → AuthAddShare R
      → AuthAddShare R
      → AuthAddShare R
      → AuthAddShare R
      → AuthAddShare R
      → AuthAddShare R
      → AuthAddShare R
      → AuthAddShare R
      → AuthAddShare R
      → AuthAddShare R
      → AuthAddShare R
      → AuthAddShare R
      → AuthAddShare R
  unfolding plus times minus add_const
  mul4_share p in1 in2 in3 in4 m mask_ab mask_ac mask_ad mask_bc mask_bd mask_cd mask_abc mask_abd
        mask_acd mask_bcd mask_abcd =
      let del_a = mask_at p in1 in
      let del_b = mask_at p in2 in
      let del_c = mask_at p in3 in
      let del_d = mask_at p in4 in
      let m_a = wire_at p in1 in
      let m_b = wire_at p in2 in
      let m_c = wire_at p in3 in
      let m_d = wire_at p in4 in
      let q1 = minus m (
        plus
          (plus
            (plus (times (times (times del_d m_a) m_b) m_c)
              (times (times (times del_c m_a) m_b) m_d))
            (times (times (times del_b m_a) m_c) m_d))
          (times (times (times del_a m_b) m_c) m_d)) in
      let q2 = plus q1 (
        plus
          (plus
            (plus
              (plus (plus (times (times mask_cd m_a) m_b) (times (times mask_bd m_a) m_c))
                (times (times mask_bc m_a) m_d))
              (times (times mask_ad m_b) m_c))
            (times (times mask_ac m_b) m_d))
          (times (times mask_ab m_c) m_d)) in
      let q3 = minus q2 (
        plus (plus (plus (times mask_bcd m_a) (times mask_acd m_b)) (times mask_abd m_c))
          (times mask_abc m_d)) in
      add_const (plus q3 mask_abcd) (m_a ⊗ m_b ⊗ m_c ⊗ m_d) p.id

  -- The loop of `kDotprod` over the pairs of wires.
  abbrev pub dotprod_pair : Party R → ℕ → ℕ → AuthAddShare R → AuthAddShare R
  dotprod_pair p win1 win2 q_share =
      let q1 = minus q_share (
        plus (times (mask_at p win1) (wire_at p win2)) (times (mask_at p win2) (wire_at p win1))) in
      add_const q1 (wire_at p win1 ⊗ wire_at p win2) p.id

  pub dotprod_loop : Party R → List ℕ → List ℕ → AuthAddShare R → AuthAddShare R
  unfolding plus times minus add_const
  dotprod_loop p (win1 ∷ ws) (win2 ∷ vs) q_share =
      dotprod_loop p ws vs (dotprod_pair p win1 win2 q_share)
  dotprod_loop p _ _ q_share = q_share

  -- What the party has to send for a gate: `none` for the types that send nothing, and where the
  -- cast of the gate's preprocessed data would be to another class than its own.
  unfoldable pub product_share :
      Party R → Gate R → PreprocGate R (AuthAddShare R) → Option (AuthAddShare R)
  unfolding mul_share mul3_share mul4_share dotprod_loop
  product_share p (fin2 mul a b o) (preproc_mult m ab) = some (mul_share p a b m ab)
  product_share p (fin3 mul3 a b c o) (preproc_mult3 m ab ac bc abc) =
      some (mul3_share p a b c m ab ac bc abc)
  product_share p (fin4 mul4 a b c d o) (preproc_mult4 m ab ac ad bc bd cd abc abd acd bcd abcd) =
      some (mul4_share p a b c d m ab ac ad bc bd cd abc abd acd bcd abcd)
  product_share p (simd dotprod ws vs o) (preproc_dotp m ab) =
      some (dotprod_loop p ws vs (plus m ab))
  product_share p _ _ = none
