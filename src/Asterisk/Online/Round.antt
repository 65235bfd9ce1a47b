-- ===== src/Asterisk/Online/Round.antt =====
-- code/src/asterisk/online_evaluator_load_balanced.cpp, `evaluateGatesAtDepth`: one round. Each party
-- computes its shares, each of them adds up a slice of everybody's, and sends the sums to all.
pub mod Exchange
pub mod Pack
pub mod Deliver
use qysnc_submission.Common.{
  ℕ, zero, suc, ◌+◌, ◌-◌, ◌*◌, ◌/◌, ◌%◌, List, [], ◌∷◌, ◌++◌, map, Option, none, some, ◌==◌, Bool,
  true, false, if◌then◌else◌, length, get_or, set, take, drop, replicate,
}
use qysnc_submission.Ring.{CommRing, ◌⊕◌, ◌⊗◌, ◌⊖◌}
use qysnc_submission.Sharing.{AuthAddShare}
use qysnc_submission.Circuit.{
  add, mul, mul3, mul4, sub, const_add, const_mul, dotprod, Gate, fin2, fin3, fin4, simd, const_op,
  out,
}
use qysnc_submission.Asterisk.{Party, Checks, preproc_at, wire_at}
use qysnc_submission.Asterisk.Online.{product_share}

-- The types of gates whose shares are exchanged, by the vectors that collect them.
pub data Slot : Type 0 where
  mult_slot : Slot
  mult3_slot : Slot
  mult4_slot : Slot
  dotprod_slot : Slot

pub slot_beq : Slot → Slot → Bool
slot_beq mult_slot mult_slot = true
slot_beq mult3_slot mult3_slot = true
slot_beq mult4_slot mult4_slot = true
slot_beq dotprod_slot dotprod_slot = true
slot_beq _ _ = false

-- The vectors `mult_nonTP`, `mult3_nonTP`, `mult4_nonTP`, `dotprod_nonTP`, and the vectors `..._all`.
abbrev pub Comm {ℓ} : Type ℓ → Type ℓ
Comm R = Slot → List R

module _ {ℓ} {R : Type ℓ} where
  unfoldable pub slot : Gate R → Option Slot
  slot (fin2 mul a b o) = some mult_slot
  slot (fin3 mul3 a b c o) = some mult3_slot
  slot (fin4 mul4 a b c d o) = some mult4_slot
  slot (simd dotprod in1 in2 o) = some dotprod_slot
  slot _ = none

  -- `push_back` on the vector of the gate's type.
  pub push_back : Slot → R → Comm R → Comm R
  unfolding slot_beq
  push_back s v c t = if slot_beq s t then c t ++ (v ∷ []) else c t

  abbrev pub no_comm : Comm R
  no_comm t = []

  -- `online_comm_to_TP`
  pub online_comm : Comm R → List R
  online_comm c = c mult_slot ++ (c mult3_slot ++ (c mult4_slot ++ c dotprod_slot))

  -- How many gates of a type the level has, and its gates of the type.
  pub of_slot : Slot → List (Gate R) → List (Gate R)
  unfolding slot slot_beq
  of_slot s [] = []
  of_slot s (g ∷ gs) =
      let rest = of_slot s gs in
      elim (slot g) [ none ↦ rest | some t ↦ if slot_beq t s then g ∷ rest else rest ]

  pub total_comm : List (Gate R) → ℕ
  unfolding of_slot
  total_comm gs =
      length (of_slot mult_slot gs)
      + length (of_slot mult3_slot gs)
      + length (of_slot mult4_slot gs)
      + length (of_slot dotprod_slot gs)

-- `per_party_comm` and `last_party_comm`, and how much the party `pid` adds up.
abbrev pub per_party_comm : ℕ → ℕ → ℕ
per_party_comm nP total_comm = total_comm / nP

abbrev pub last_party_comm : ℕ → ℕ → ℕ
last_party_comm nP total_comm = per_party_comm nP total_comm + total_comm % nP

pub slice_size : ℕ → ℕ → ℕ → ℕ
slice_size nP total_comm pid =
    if pid == nP then last_party_comm nP total_comm else per_party_comm nP total_comm

module _ {ℓ} {R : Type ℓ} ⦃r : CommRing R⦄ where
  -- `q_val_` is set to 0 for the other products, but not for `kDotprod`.
  pub reset_q_val : Slot → ℕ → List R → List R
  reset_q_val dotprod_slot o q_val = q_val
  reset_q_val _ o q_val = set q_val o r.zero

  -- `evaluateGatesAtDepthPartySend` for one gate, and for the gates of the level.
  pub send_gate : Party R → Gate R → Checks R × Comm R → Checks R × Comm R
  unfolding push_back slot reset_q_val
  send_gate p g (checks, c) = elim (slot g) [
    | none ↦ (checks, c)
    | some s ↦ elim (product_share p g (preproc_at p (out g))) [
      | none ↦ (checks, c)
      | some q ↦ (
        record { q_sh = set checks.q_sh (out g) q; q_val = reset_q_val s (out g) checks.q_val },
        push_back s q.value c,
      )
    ]
  ]

  pub party_send : Party R → List (Gate R) → Checks R × Comm R → Checks R × Comm R
  unfolding send_gate
  party_send p [] st = st
  party_send p (g ∷ gs) st = party_send p gs (send_gate p g st)

  -- `+=` on the places of a vector, from a place on.
  pub add_vector : List R → List R → List R
  add_vector (y ∷ ys) (x ∷ xs) = (y ⊕ x) ∷ add_vector ys xs
  add_vector ys _ = ys

  pub add_at : ℕ → List R → List R → List R
  unfolding add_vector
  add_at zero xs ys = add_vector ys xs
  add_at (suc n) xs [] = []
  add_at (suc n) xs (y ∷ ys) = y ∷ add_at n xs ys

  -- Adding up what the parties sent, in the order of the parties.
  pub add_up : List R → List (List R) → List R
  unfolding add_vector
  add_up acc [] = acc
  add_up acc (v ∷ vs) = add_up (add_vector acc v) vs

  -- What a party sends to the party `pid`; for `pid` itself, what it keeps.
  pub online_comm_to_party : ℕ → ℕ → ℕ → List R → List R
  unfolding slice_size
  online_comm_to_party nP total_comm pid comm =
      take (slice_size nP total_comm pid) (drop ((pid - 1) * per_party_comm nP total_comm) comm)

  -- `agg_values_send` (`agg_values_send_last` for the last party): the sums that `pid` makes.
  pub agg_values_send : ℕ → ℕ → ℕ → List (List R) → List R
  unfolding add_up online_comm_to_party slice_size
  agg_values_send nP total_comm pid comms =
      add_up (replicate (slice_size nP total_comm pid) r.zero)
        (map (online_comm_to_party nP total_comm pid) comms)

  -- `agg_values`, by the loop over the parties; each party gets the same.
  pub gather : ℕ → ℕ → List (List R) → ℕ → ℕ → List R → List R
  unfolding agg_values_send add_at
  gather nP total_comm comms pid zero agg_values = agg_values
  gather nP total_comm comms pid (suc left) agg_values = gather nP total_comm comms (suc pid) left (
      add_at ((pid - 1) * per_party_comm nP total_comm) (agg_values_send nP total_comm pid comms)
        agg_values)

  pub exchange : ℕ → ℕ → List (List R) → List R
  unfolding gather
  exchange nP total_comm comms = gather nP total_comm comms 1 nP (replicate total_comm r.zero)

  -- The vectors `mult_all` and so on, cut out of `agg_values` by the numbers of gates.
  pub cut : List (Gate R) → List R → Comm R
  unfolding of_slot
  cut gs agg_values mult_slot = take (length (of_slot mult_slot gs)) agg_values
  cut gs agg_values mult3_slot =
      take (length (of_slot mult3_slot gs)) (drop (length (of_slot mult_slot gs)) agg_values)
  cut gs agg_values mult4_slot =
      take (length (of_slot mult4_slot gs))
        (drop (length (of_slot mult3_slot gs) + length (of_slot mult_slot gs)) agg_values)
  cut gs agg_values dotprod_slot = take (length (of_slot dotprod_slot gs)) (
      drop
        (length (of_slot mult4_slot gs)
          + length (of_slot mult3_slot gs)
          + length (of_slot mult_slot gs))
        agg_values)

  -- `evaluateGatesAtDepthPartyRecv`: the next value of a gate's vector, which keeps what is not yet
  -- read; an empty vector gives zero.
  pub next_value : Slot → Comm R → R × Comm R
  unfolding slot_beq
  next_value s c = elim (c s) [
    | [] ↦ (r.zero, c)
    | v ∷ vs ↦ (v, λ t. if slot_beq s t then vs else c t)
  ]

  -- The wires after a linear gate.
  unfoldable pub linear_gate : List R → Gate R → List R
  linear_gate wires (fin2 add a b o) = set wires o (get_or wires a r.zero ⊕ get_or wires b r.zero)
  linear_gate wires (fin2 sub a b o) = set wires o (get_or wires a r.zero ⊖ get_or wires b r.zero)
  linear_gate wires (const_op const_add a c o) = set wires o (get_or wires a r.zero ⊕ c)
  linear_gate wires (const_op const_mul a c o) = set wires o (get_or wires a r.zero ⊗ c)
  linear_gate wires _ = wires

  -- The gates that set `q_val_` to 0.
  pub linear_check : List R → Gate R → List R
  linear_check q_val (fin2 add a b o) = set q_val o r.zero
  linear_check q_val (fin2 sub a b o) = set q_val o r.zero
  linear_check q_val _ = q_val

  pub party_recv : List (Gate R) → Comm R → List R × List R → List R × List R
  unfolding slot next_value linear_gate linear_check
  party_recv [] c st = st
  party_recv (g ∷ gs) c (wires, q_val) = elim (slot g) [
    | none ↦ party_recv gs c (linear_gate wires g, linear_check q_val g)
    | some s ↦
        party_recv gs (next_value s c).1
          (set wires (out g) (next_value s c).0, set q_val (out g) (next_value s c).0)
  ]

  -- What a party sends in the round, and the party after it.
  pub sent_in_round : Party R × Checks R → List (Gate R) → Checks R × Comm R
  unfolding party_send
  sent_in_round (p, checks) gs = party_send p gs (checks, no_comm)

  pub received_in_round : Party R × Checks R → List (Gate R) → Comm R → Party R × Checks R
  unfolding sent_in_round party_recv
  received_in_round (p, checks) gs all =
      let sent_checks = (sent_in_round (p, checks) gs).0 in
      let after = party_recv gs all (p.wires, sent_checks.q_val) in
      (record p { wires = after.0 }, record sent_checks { q_val = after.1 })

  -- `evaluateGatesAtDepth` at all parties.
  pub evaluate_gates_at_depth :
      List (Gate R) → List (Party R × Checks R) → List (Party R × Checks R)
  unfolding sent_in_round received_in_round exchange cut online_comm total_comm
  evaluate_gates_at_depth gs states =
      let comms = map (λ s. online_comm (sent_in_round s gs).1) states in
      let all = cut gs (exchange (length states) (total_comm gs) comms) in
      map (λ s. received_in_round s gs all) states
