-- ===== src/Asterisk/Tests.antt =====
-- Two parties evaluate a circuit of four wires over bits, and each theorem at an input.
use qysnc_submission.Common.{
  ℕ, zero, suc, ◌<◌, ◌≡◌, refl, sym, subst, inl, inr, Bool, true, false, not, xor, some, List, [],
  ◌∷◌, map, length, get_or, replicate, arith,
}
use qysnc_submission.Ring.{◌⊗◌}
use qysnc_submission.Ring.Laws.{total}
use qysnc_submission.Common.Map.{nat_eq, lookup}
use qysnc_submission.Bits.{add, mul}
use qysnc_submission.Bits.Ring.{bool_ring}
use qysnc_submission.Sharing.{AuthAddShare, TpShare, secret, sum_from}
use qysnc_submission.Circuit.{Gate, gate, fin2, inp, out}
use qysnc_submission.Circuit as Gates
use qysnc_submission.Circuit.Evaluate.{Representation, evaluated, eval_levels, read_all}
use qysnc_submission.Asterisk.{
  PreprocGate, preproc_gate, preproc_input, preproc_mult, mask, Party, Checks, mask_at,
}
use qysnc_submission.Asterisk.Shared.{Shared, Everyone}
use qysnc_submission.Asterisk.Online.{product_share}
use qysnc_submission.Asterisk.Online.Round.{slot, mult_slot, exchange, evaluate_gates_at_depth}
use qysnc_submission.Asterisk.Online.Round.Exchange.{exchange-sum}
use qysnc_submission.Asterisk.Online.Round.Deliver.{
  parties, opened, after_round, EveryoneReady, evaluate_gates_at_depth-after_round, IsReady,
  share_of,
}
use qysnc_submission.Asterisk.Online.Setup.{AllOf, Reads, Prepared, with_wires, none-some}
use qysnc_submission.Asterisk.Online.Sends.{gate-Sends, IsMasked}
use qysnc_submission.Asterisk.Online.Refine.{Ordered, OrderedLevels, AllLevels, AfterLevels}
use qysnc_submission.Asterisk.Online.Run.{run_levels, output_masks, get_outputs, tpmask_at}
use qysnc_submission.Asterisk.Online.Verify.{mac_verification}
use qysnc_submission.Asterisk.Online.Verify.Sum.{
  IsChecked, key_of_state, tag_at, Opened, mac_verification-accepts,
}
use qysnc_submission.Asterisk.Online.Run.{sent_input, set_input, set_inputs}
use qysnc_submission.Asterisk.Online.Run.Inputs.{GetsInput, GivesInput}
use qysnc_submission.Asterisk.Online.Run.Phase.{NoInput, Started, online_phase-outputs}
use qysnc_submission.Asterisk.Online.Refine.{AllGates}
use qysnc_submission.Common.{if◌then◌else◌, ◌==◌}

abbrev share : Bool → Bool → Bool → AuthAddShare Bool
share k v t = record { key_sh = k; value = v; tag = t }

-- The two shares of a bit under the key 1.
abbrev first : Bool → AuthAddShare Bool
first v = share true (not v) false

abbrev second : Bool → AuthAddShare Bool
second v = share false true v

-- The masks of the wires: two inputs, their product, and the sum of the product and an input.
abbrev masks : List Bool
masks = true ∷ false ∷ true ∷ false ∷ []

abbrev d : ℕ → Bool
d w = get_or masks w false

abbrev preproc_of : (Bool → AuthAddShare Bool) → List (PreprocGate Bool (AuthAddShare Bool))
preproc_of of_bit =
    preproc_input (of_bit true) 1 true
    ∷ preproc_input (of_bit false) 2 false
    ∷ preproc_mult (of_bit true) (of_bit false)
    ∷ preproc_gate (of_bit false)
    ∷ []

abbrev ps : List (Party Bool)
ps =
    record { id = 1; preproc = preproc_of first; wires = [] }
    ∷ record { id = 2; preproc = preproc_of second; wires = [] }
    ∷ []

abbrev product_gate : Gate Bool
product_gate = fin2 Gates.mul 0 1 2

abbrev levels : List (List (Gate Bool))
levels = (gate inp 0 ∷ gate inp 1 ∷ []) ∷ (product_gate ∷ fin2 Gates.add 2 0 3 ∷ []) ∷ []

-- The inputs are 1 and 1, and the wires after `setInputs`.
abbrev inputs : List (ℕ × Bool)
inputs = (0, true) ∷ (1, true) ∷ []

abbrev init : List Bool
init = false ∷ true ∷ false ∷ false ∷ []

abbrev no_checks : Checks Bool
no_checks = record { q_sh = []; q_val = [] }

abbrev states : List (Party Bool × Checks Bool)
states = map (λ p. (with_wires init p, no_checks)) ps

masks-Shared : (w : ℕ) → w < 4 → Shared ps true (λ p. mask_at p w) (d w)
unfolding mask add mul xor
masks-Shared zero h = record { shares = record { key = refl; authentic = refl; value = refl } }
masks-Shared (suc zero) h = record {
  shares = record { key = refl; authentic = refl; value = refl };
}
masks-Shared (suc (suc zero)) h = record {
  shares = record { key = refl; authentic = refl; value = refl };
}
masks-Shared (suc (suc (suc zero))) h = record {
  shares = record { key = refl; authentic = refl; value = refl };
}
masks-Shared (suc (suc (suc (suc w)))) h = absurd (omega arith)

product_Prepared : Prepared ps true d product_gate
unfolding Prepared mask add mul xor
product_Prepared = (
  (refl, (refl, record { lower = tt })),
  record { shares = record { key = refl; authentic = refl; value = refl } },
)

inputs-IsMasked :
    Reads (IsMasked ps true d (refl, (refl, tt)) (omega arith) init (λ w. true)) product_gate
unfolding Reads add xor
inputs-IsMasked = ((masks-Shared 0 (omega arith), refl), (masks-Shared 1 (omega arith), refl))

gate-Sends_example :
    Everyone (λ p. IsReady p product_gate) (map (with_wires init) ps)
    × Shared (map (with_wires init) ps) true (λ p. share_of p product_gate) (add true true)
unfolding slot out mul
gate-Sends_example =
    gate-Sends ps true d (refl, (refl, tt)) (omega arith) init (λ w. true) product_gate mult_slot
      refl product_Prepared inputs-IsMasked (masks-Shared 2 (omega arith))

exchange-sum_example :
    (length (exchange 2 3 ((true ∷ false ∷ true ∷ []) ∷ (true ∷ true ∷ false ∷ []) ∷ [])) ≡ 3)
    × (get_or (exchange 2 3 ((true ∷ false ∷ true ∷ []) ∷ (true ∷ true ∷ false ∷ []) ∷ [])) 2 false
        ≡ total (true ∷ false ∷ []))
exchange-sum_example =
    exchange-sum 2 3 2 ((true ∷ false ∷ true ∷ []) ∷ (true ∷ true ∷ false ∷ []) ∷ []) (omega arith)
      (omega arith)

level-EveryoneReady : EveryoneReady (product_gate ∷ []) (parties states)
unfolding slot product_share out
level-EveryoneReady = (
  ((λ s e. refl), record { lower = tt }),
  (((λ s e. refl), record { lower = tt }), record { lower = tt }),
)

evaluate_gates_at_depth-after_round_example :
    evaluate_gates_at_depth (product_gate ∷ []) states
    ≡ map (after_round (opened (parties states)) (product_gate ∷ [])) states
evaluate_gates_at_depth-after_round_example =
    evaluate_gates_at_depth-after_round (product_gate ∷ []) states (omega arith) level-EveryoneReady

levels-OrderedLevels : OrderedLevels 4 (λ w. ⊥) levels
unfolding OrderedLevels Ordered Reads out slot
levels-OrderedLevels = (
  (
    record { lower = tt },
    (λ h. h),
    omega arith,
    (
      record { lower = tt },
      (λ h. elim h [ inl x ↦ x | inr e ↦ absurd (omega arith) ]),
      omega arith,
      tt,
    ),
  ),
  (
    (
      (inl (inr refl), inr refl),
      (λ h. elim h [
        | inl x ↦ elim x [ inl y ↦ y | inr e ↦ absurd (omega arith) ]
        | inr e ↦ absurd (omega arith)
      ]),
      omega arith,
      (
        (inr refl, inl (inl (inr refl))),
        (λ h. elim h [
          | inl x ↦ elim x [
            | inl y ↦ elim y [ inl z ↦ z | inr e ↦ absurd (omega arith) ]
            | inr e ↦ absurd (omega arith)
          ]
          | inr e ↦ absurd (omega arith)
        ]),
        omega arith,
        tt,
      ),
    ),
    tt,
  ),
)

levels-Prepared : AllLevels (Prepared ps true d) levels
unfolding Prepared add xor
levels-Prepared = (
  (record { lower = tt }, (record { lower = tt }, record { lower = tt })),
  ((product_Prepared, (refl, record { lower = tt })), record { lower = tt }),
)

abbrev dealt : Bool → TpShare Bool
dealt v = record {
  key = true;
  key_shs = false ∷ true ∷ false ∷ [];
  values = false ∷ not v ∷ true ∷ [];
  tags = false ∷ false ∷ v ∷ [];
}

abbrev tp : List (PreprocGate Bool (TpShare Bool))
tp = map (λ v. preproc_gate (dealt v)) masks

tp_masks : (w : ℕ) → AfterLevels (λ w. ⊥) levels w → secret (tpmask_at tp w) ≡ some (d w)
unfolding out mask secret sum_from add xor
tp_masks w h =
    let at : (v : ℕ)
        → secret (tpmask_at tp v) ≡ some (d v)
        → w ≡ v
        → secret (tpmask_at tp w) ≡ some (d w) =
      λ v right e. subst (λ z. secret (tpmask_at tp z) ≡ some (d z)) (sym e) right in
    elim h [
      | inr e ↦ at 3 refl e
      | inl h3 ↦ elim h3 [
        | inr e ↦ at 2 refl e
        | inl h2 ↦ elim h2 [
          | inr e ↦ at 1 refl e
          | inl h1 ↦ elim h1 [ inr e ↦ at 0 refl e | inl h0 ↦ absurd h0 ]
        ]
      ]
    ]

abbrev bits : Representation Bool
bits = record { is_zero = not; sign_bit = λ b. b; truncate = λ b. b; is_bool = true }

output_known : AllOf (AfterLevels (λ w. ⊥) levels) (3 ∷ [])
unfolding AllOf out
output_known = (inr refl, record { lower = tt })

abbrev given : ℕ → List (ℕ × Bool)
given pid = if pid == 1 then (0, true) ∷ [] else (1, true) ∷ []

abbrev from_owner : ℕ → Bool
from_owner o = get_or init o false

abbrev x : ℕ → Bool
x w = true

true-false : true ≡ false → ⊥
true-false e = cc

gets-Everyone :
    Everyone
      (λ p. AllGates (GetsInput x d (given p.id) from_owner p) (gate inp 0 ∷ gate inp 1 ∷ []))
      ps
unfolding GetsInput lookup add xor
gets-Everyone = (
  (
    (first true, 1, true, refl, (λ b. (refl, refl)), (λ b. absurd (true-false b))),
    (
      (first false, 2, false, refl, (λ b. absurd (true-false (sym b))), (λ b. refl)),
      record { lower = tt },
    ),
  ),
  (
    (
      (second true, 1, true, refl, (λ b. absurd (true-false (sym b))), (λ b. refl)),
      (
        (second false, 2, false, refl, (λ b. (refl, refl)), (λ b. absurd (true-false b))),
        record { lower = tt },
      ),
    ),
    record { lower = tt },
  ),
)

inputs_given : AllGates (GivesInput x d 4 inputs) (gate inp 0 ∷ gate inp 1 ∷ [])
unfolding GivesInput lookup
inputs_given = (
  (refl, record { lower = omega arith }),
  ((refl, record { lower = omega arith }), record { lower = tt }),
)

none_later : AllLevels NoInput ((product_gate ∷ fin2 Gates.add 2 0 3 ∷ []) ∷ [])
unfolding NoInput
none_later =
    ((record { lower = tt }, (record { lower = tt }, record { lower = tt })), record { lower = tt })

states-Started :
    Started given from_owner (gate inp 0 ∷ gate inp 1 ∷ []) (replicate 4 false) no_checks ps states
unfolding set_inputs set_input sent_input lookup add xor
states-Started = (refl, (refl, record { lower = tt }))

-- The output is 1 times 1 plus 1.
online_phase-outputs_example :
    (vw : List Bool) × (eval_levels bits inputs (replicate 4 false) levels ≡ evaluated vw)
    × Everyone
        (λ p. get_outputs p.wires (3 ∷ []) (output_masks tp (3 ∷ [])) ≡ read_all bits vw (3 ∷ []))
        (parties (run_levels levels states))
online_phase-outputs_example =
    online_phase-outputs bits ps true 4 x d given from_owner inputs (gate inp 0 ∷ gate inp 1 ∷ [])
      ((product_gate ∷ fin2 Gates.add 2 0 3 ∷ []) ∷ []) (3 ∷ []) tp no_checks states
      (refl, (refl, tt)) (omega arith) masks-Shared gets-Everyone inputs_given none_later
      states-Started levels-OrderedLevels levels-Prepared output_known tp_masks

-- The opened values of the wires, and shares of them with their tags.
abbrev opened_values : List Bool
opened_values = true ∷ false ∷ []

abbrev value_at : ℕ → Bool
value_at o = get_or opened_values o false

abbrev checked_states : List (Party Bool × Checks Bool)
checked_states =
    (
      record { id = 1; preproc = preproc_of first; wires = [] },
      record { q_sh = first true ∷ first false ∷ []; q_val = opened_values },
    )
    ∷ (
      record { id = 2; preproc = preproc_of second; wires = [] },
      record { q_sh = second true ∷ second false ∷ []; q_val = opened_values },
    )
    ∷ []

abbrev checked_levels : List (List (Gate Bool))
checked_levels = (gate inp 2 ∷ []) ∷ (fin2 Gates.mul 0 1 0 ∷ fin2 Gates.mul 0 1 1 ∷ []) ∷ []

-- A generator that alternates.
abbrev alternate : Bool → Bool × Bool
alternate b = (b, not b)

all-Opened : (o : ℕ) → Opened o (value_at o) checked_states
all-Opened o = (refl, (refl, record { lower = tt }))

all_tagged :
    (o : ℕ)
    → total (map (tag_at o) checked_states) ≡ total (map key_of_state checked_states) ⊗ value_at o
unfolding mask add mul xor
all_tagged zero = refl
all_tagged (suc zero) = refl
all_tagged (suc (suc o)) = refl

-- The input gate is not checked.
all-IsChecked : AllLevels (IsChecked checked_states value_at value_at) checked_levels
unfolding slot out
all-IsChecked = (
  ((λ s e. absurd (none-some e)), record { lower = tt }),
  (
    (
      (λ s e. (all-Opened 0, all_tagged 0)),
      ((λ s e. (all-Opened 1, all_tagged 1)), record { lower = tt }),
    ),
    record { lower = tt },
  ),
)

mac_verification-accepts_example :
    mac_verification alternate not checked_levels true checked_states ≡ true
mac_verification-accepts_example =
    mac_verification-accepts alternate not checked_levels true checked_states value_at refl
      all-IsChecked
