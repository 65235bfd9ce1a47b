-- ===== src/Asterisk/Protocol/Tests.antt =====
-- Two parties and a trusted party prepare and run a circuit that multiplies two inputs and adds one.
use qysnc_submission.Common.{
  ℕ, ◌<◌, ◌≡◌, refl, ◌==◌, if◌then◌else◌, Bool, true, false, not, Bool-cases, inl, inr, List, [],
  ◌∷◌, map, replicate, arith,
}
use qysnc_submission.Common.Map.{nat_eq, lookup}
use qysnc_submission.Bits.Ring.{bool_ring}
use qysnc_submission.Circuit.{inp, add, mul, Gate, gate, fin2, out}
use qysnc_submission.Circuit.Evaluate.{Representation, evaluated, eval_levels, read_all}
use qysnc_submission.Asterisk.{Party, Checks}
use qysnc_submission.Asterisk.Shared.{Everyone}
use qysnc_submission.Asterisk.Online.Round.{slot}
use qysnc_submission.Asterisk.Online.Round.Deliver.{parties}
use qysnc_submission.Asterisk.Online.Setup.{AllOf, Reads}
use qysnc_submission.Asterisk.Online.Refine.{
  Ordered, OrderedLevels, AfterLevels, AllGates, AllLevels,
}
use qysnc_submission.Asterisk.Online.Run.{run_levels, output_masks, get_outputs}
use qysnc_submission.Asterisk.Online.Run.Phase.{NoInput, Started}
use qysnc_submission.Asterisk.Offline.Role.{Preparing, tp_role}
use qysnc_submission.Asterisk.Offline.Gates.{sec_of}
use qysnc_submission.Asterisk.Offline.Place.{party_of}
use qysnc_submission.Asterisk.Offline.Sequence.{Supported}
use qysnc_submission.Asterisk.Offline.WireMasks.{set_wire_masks_tp}
use qysnc_submission.Asterisk.Offline.WireMasks.Outcome.{
  NoWire, Ran, IsPrepared, t0, t_end, d_end, set_wire_masks-IsPrepared,
}
use qysnc_submission.Asterisk.Protocol.{protocol-outputs}
use qysnc_submission.Asterisk.Protocol.Inputs.{HasInput, sum_sent, SendsInput}

-- Generators that alternate.
abbrev draw : Bool → Bool × Bool
draw b = (b, not b)

abbrev draw_byte : Bool → ℕ × Bool
draw_byte b = ((if b then 7 else 2), not b)

abbrev generators : List Bool
generators = true ∷ false ∷ []

-- Party 1 gives input 0, party 2 gives input 1.
abbrev owner : ℕ → ℕ
owner w = if w == 0 then 1 else 2

abbrev first : List (Gate Bool)
first = gate inp 0 ∷ gate inp 1 ∷ []

abbrev later : List (List (Gate Bool))
later = (fin2 mul 0 1 2 ∷ fin2 add 2 0 3 ∷ []) ∷ []

abbrev bits : Representation Bool
bits = record { is_zero = not; sign_bit = λ b. b; truncate = λ b. b; is_bool = true }

abbrev input : ℕ → Bool
input w = true

abbrev given : ℕ → List (ℕ × Bool)
given pid = if pid == 1 then (0, true) ∷ [] else (1, true) ∷ []

abbrev inputs : List (ℕ × Bool)
inputs = (0, true) ∷ (1, true) ∷ []

abbrev no_checks : Checks Bool
no_checks = record { q_sh = []; q_val = [] }

circuit-OrderedLevels : OrderedLevels 4 NoWire (first ∷ later)
unfolding OrderedLevels Ordered Reads out slot
circuit-OrderedLevels = (
  (
    record { lower = tt },
    (λ h. h),
    omega arith,
    (
      record { lower = tt },
      (λ h. elim h [ inl x ↦ x | inr e ↦ absurd (omega arith) ]),
      omega arith,
      tt,
    ),
  ),
  (
    (
      (inl (inr refl), inr refl),
      (λ h. elim h [
        | inl x ↦ elim x [ inl y ↦ y | inr e ↦ absurd (omega arith) ]
        | inr e ↦ absurd (omega arith)
      ]),
      omega arith,
      (
        (inr refl, inl (inl (inr refl))),
        (λ h. elim h [
          | inl x ↦ elim x [
            | inl y ↦ elim y [ inl z ↦ z | inr e ↦ absurd (omega arith) ]
            | inr e ↦ absurd (omega arith)
          ]
          | inr e ↦ absurd (omega arith)
        ]),
        omega arith,
        tt,
      ),
    ),
    tt,
  ),
)

circuit-Supported : AllLevels Supported (first ∷ later)
unfolding Supported
circuit-Supported = (
  (record { lower = tt }, (record { lower = tt }, record { lower = tt })),
  ((record { lower = tt }, (record { lower = tt }, record { lower = tt })), record { lower = tt }),
)

all_wires : (w : ℕ) → w < 4 → AfterLevels NoWire (first ∷ later) w
unfolding out
all_wires w lt = elim (Bool-cases (w == 3)) [
  | inl b ↦ inr (ground arith)
  | inr b ↦ elim (Bool-cases (w == 2)) [
    | inl b2 ↦ inl (inr (ground arith))
    | inr b2 ↦ elim (Bool-cases (w == 1)) [
      | inl b1 ↦ inl (inl (inr (ground arith)))
      | inr b1 ↦ inl (inl (inl (inr (ground arith))))
    ]
  ]
]

none_later : AllLevels NoInput later
unfolding NoInput
none_later =
    ((record { lower = tt }, (record { lower = tt }, record { lower = tt })), record { lower = tt })

outputs_known : AllOf (λ w. w < 4) (3 ∷ [])
unfolding AllOf
outputs_known = (omega arith, record { lower = tt })

inputs_given : AllGates (HasInput owner input given inputs) first
unfolding HasInput lookup
inputs_given = ((refl, refl), ((refl, refl), record { lower = tt }))

set_wire_masks-IsPrepared_example :
    (ps : List (Preparing Bool Bool)) × Ran draw draw_byte owner 4
      (first ∷ later)
      2
      1
      (set_wire_masks_tp draw draw_byte owner generators true 4 (first ∷ later)).1
      generators
      ps
    × IsPrepared draw draw_byte owner 4
        (first ∷ later)
        2
        (t0 draw draw_byte owner 4 (first ∷ later) generators true (omega arith)).dealer.key
        (d_end draw draw_byte owner 4 (first ∷ later) generators true (omega arith))
        (t_end draw draw_byte owner 4 (first ∷ later) generators true (omega arith))
        ps
set_wire_masks-IsPrepared_example =
    set_wire_masks-IsPrepared draw draw_byte owner 4 (first ∷ later) generators true (omega arith)
      circuit-OrderedLevels circuit-Supported

protocol-outputs_example :
    let (t, message) = set_wire_masks_tp draw draw_byte owner generators true 4 (first ∷ later) in
    (ps : List (Preparing Bool Bool)) × (states : List (Party Bool × Checks Bool)) × (vw : List
      Bool)
    × Ran draw draw_byte owner 4 (first ∷ later) 2 1 message generators ps
    × Started given
        (sum_sent input (sec_of (tp_role draw) t))
        first
        (replicate 4 false)
        no_checks
        (map party_of ps)
        states
    × Everyone
        (λ p. AllGates (λ g. SendsInput owner input (sec_of (tp_role draw) t) given g p) first)
        (map party_of ps)
    × (eval_levels bits inputs (replicate 4 false) (first ∷ later) ≡ evaluated vw)
    × Everyone
        (λ p.
          get_outputs p.wires (3 ∷ []) (output_masks t.preproc (3 ∷ []))
          ≡ read_all bits vw (3 ∷ []))
        (parties (run_levels (first ∷ later) states))
protocol-outputs_example =
    protocol-outputs draw draw_byte owner bits generators true 4 input given inputs first later
      (3 ∷ []) no_checks (omega arith) circuit-OrderedLevels circuit-Supported none_later all_wires
      outputs_known inputs_given
