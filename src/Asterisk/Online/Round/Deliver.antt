-- ===== src/Asterisk/Online/Round/Deliver.antt =====
-- After the round each gate of the level has the sum of the parties' shares for it.
use qysnc_submission.Common.{
  suc, ◌≤◌, ◌≡◌, refl, sym, ◌∙◌, ap, ap₂, subst, fun_ext, append-nil, inl, inr, Option-cases,
  Bool-cases, none, some, List, [], ◌∷◌, map, if◌then◌else◌, length, set,
}
use mathlib.Core.Logic.{Lift}
use qysnc_submission.Ring.{CommRing}
use qysnc_submission.Sharing.{AuthAddShare}
use qysnc_submission.Circuit.{Gate, out}
use qysnc_submission.Asterisk.{Party, Checks, no_share, preproc_at}
use qysnc_submission.Asterisk.Shared.{Everyone}
use qysnc_submission.Asterisk.Online.{product_share}
use qysnc_submission.Asterisk.Online.Round.{
  Slot, Comm, slot_beq, slot, push_back, no_comm, online_comm, of_slot, send_gate, party_send,
  exchange, cut, next_value, linear_gate, linear_check, party_recv, total_comm, sent_in_round,
  received_in_round, evaluate_gates_at_depth,
}
use qysnc_submission.Asterisk.Online.Round.Pack.{
  packed, append, of_slot-some, packed-none, append-push, slot_beq_refl, slot_beq-eq, sum_over,
  round_sums,
}

module _ {ℓ} {R : Type ℓ} ⦃r : CommRing R⦄ where
  abbrev pub share_of : Party R → Gate R → AuthAddShare R
  share_of p g = elim (product_share p g (preproc_at p (out g))) [ none ↦ no_share | some q ↦ q ]

  abbrev pub value_sent : Party R → Gate R → R
  value_sent p g = (share_of p g).value

  -- The party has the preprocessed data of the gate, if the gate's shares are exchanged.
  abbrev pub IsReady : Party R → Gate R → Type ℓ
  IsReady p g =
      (s : Slot) → slot g ≡ some s → product_share p g (preproc_at p (out g)) ≡ some (share_of p g)

  abbrev pub AllReady : Party R → List (Gate R) → Type ℓ
  AllReady p [] = Lift {0, ℓ} Unit
  AllReady p (g ∷ gs) = IsReady p g × AllReady p gs

  send_gate-none :
      (p : Party R) (g : Gate R) (st : Checks R × Comm R) → slot g ≡ none → send_gate p g st ≡ st
  unfolding send_gate
  send_gate-none p g (checks, c) e = rw (e, send_gate) refl

  send_gate-some :
      (p : Party R) (g : Gate R) (st : Checks R × Comm R) (s : Slot)
      → slot g ≡ some s
      → IsReady p g
      → (send_gate p g st).1 ≡ push_back s (value_sent p g) st.1
  unfolding send_gate
  send_gate-some p g (checks, c) s e h = rw (e, h s e, send_gate) refl

  party_send-packed :
      (p : Party R) (gs : List (Gate R)) (st : Checks R × Comm R)
      → AllReady p gs
      → (party_send p gs st).1 ≡ append st.1 (packed (value_sent p) gs)
  unfolding party_send of_slot
  party_send-packed p [] st h = fun_ext (λ s. sym (append-nil (st.1 s)))
  party_send-packed p (g ∷ gs) st (ready, h) = elim (Option-cases (slot g)) [
    | inl e ↦
        ap (λ z. (party_send p gs z).1) (send_gate-none p g st e)
        ∙ party_send-packed p gs st h
        ∙ ap (append st.1) (sym (packed-none (value_sent p) g gs e))
    | inr (s, e) ↦
        party_send-packed p gs (send_gate p g st) h
        ∙ ap (λ c. append c (packed (value_sent p) gs)) (send_gate-some p g st s e ready)
        ∙ append-push s (value_sent p) g gs st.1 e
  ]

  -- The wires and the `q_val` after the gates get `f`.
  abbrev pub recv_wires : (Gate R → R) → List (Gate R) → List R → List R
  recv_wires f [] wires = wires
  recv_wires f (g ∷ gs) wires =
      recv_wires f gs
        (elim (slot g) [ none ↦ linear_gate wires g | some s ↦ set wires (out g) (f g) ])

  abbrev pub recv_vals : (Gate R → R) → List (Gate R) → List R → List R
  recv_vals f [] q_val = q_val
  recv_vals f (g ∷ gs) q_val =
      recv_vals f gs
        (elim (slot g) [ none ↦ linear_check q_val g | some s ↦ set q_val (out g) (f g) ])

  next_value-packed :
      (f : Gate R → R) (g : Gate R) (gs : List (Gate R)) (s : Slot)
      → slot g ≡ some s
      → next_value s (packed f (g ∷ gs)) ≡ (f g, packed f gs)
  unfolding next_value
  next_value-packed f g gs s e =
      rw (of_slot-some s s g gs e, slot_beq_refl s, next_value) (ap (λ c. (f g, c)) (fun_ext at))
    where
      at :
          (t : Slot)
          → (if slot_beq s t then map f (of_slot s gs) else map f (of_slot t (g ∷ gs)))
            ≡ map f (of_slot t gs)
      at t = elim (Bool-cases (slot_beq s t)) [
        | inl h ↦ rw h (ap (λ u. map f (of_slot u gs)) (slot_beq-eq s t h))
        | inr h ↦ rw (of_slot-some t s g gs e, h) refl
      ]

  party_recv-packed :
      (f : Gate R → R) (gs : List (Gate R)) (st : List R × List R)
      → party_recv gs (packed f gs) st ≡ (recv_wires f gs st.0, recv_vals f gs st.1)
  unfolding party_recv
  party_recv-packed f [] st = refl
  party_recv-packed f (g ∷ gs) (wires, q_val) = elim (Option-cases (slot g)) [
    | inl e ↦
        rw (e, party_recv, recv_wires, recv_vals, packed-none f g gs e)
          (party_recv-packed f gs (linear_gate wires g, linear_check q_val g))
    | inr (s, e) ↦
        rw (e, party_recv, recv_wires, recv_vals, next_value-packed f g gs s e)
          (party_recv-packed f gs (set wires (out g) (f g), set q_val (out g) (f g)))
  ]

  -- The parties' states, without what `MACVerification` reads.
  abbrev pub parties : List (Party R × Checks R) → List (Party R)
  parties states = map (λ s. s.0) states

  abbrev pub EveryoneReady : List (Gate R) → List (Party R) → Type ℓ
  EveryoneReady gs ps = Everyone (λ p. AllReady p gs) ps

  comms_of :
      (gs : List (Gate R)) (states : List (Party R × Checks R))
      → EveryoneReady gs (parties states)
      → map (λ s. online_comm (sent_in_round s gs).1) states
        ≡ map (λ p. online_comm (packed (value_sent p) gs)) (parties states)
  unfolding sent_in_round
  comms_of gs [] h = refl
  comms_of gs ((p, checks) ∷ states) (ready, h) =
      ap₂ ◌∷◌ (ap online_comm (party_send-packed p gs (checks, no_comm) ready))
        (comms_of gs states h)

  length-parties : (states : List (Party R × Checks R)) → length (parties states) ≡ length states
  length-parties [] = refl
  length-parties (s ∷ states) = ap suc (length-parties states)

  -- The sum of the shares of all parties.
  abbrev pub opened : List (Party R) → Gate R → R
  opened ps g = sum_over value_sent ps g

  -- What the party keeps after the round when every gate gets `f`.
  abbrev pub after_round : (Gate R → R) → List (Gate R) → Party R × Checks R → Party R × Checks R
  after_round f gs (p, checks) = (
    record p { wires = recv_wires f gs p.wires },
    record (sent_in_round (p, checks) gs).0 {
      q_val = recv_vals f gs (sent_in_round (p, checks) gs).0.q_val;
    },
  )

  received_in_round-after_round :
      (f : Gate R → R) (gs : List (Gate R)) (s : Party R × Checks R)
      → received_in_round s gs (packed f gs) ≡ after_round f gs s
  unfolding received_in_round
  received_in_round-after_round f gs (p, checks) =
      ap (λ a. (record p { wires = a.0 }, record (sent_in_round (p, checks) gs).0 { q_val = a.1 }))
        (party_recv-packed f gs (p.wires, (sent_in_round (p, checks) gs).0.q_val))

  -- A round of `evaluateGatesAtDepth`, in which the parties exchange their shares of all gates of
  -- the level in slices: at each party every gate of the level whose shares are exchanged gets the
  -- sum of all parties' shares for this gate, and the linear gates are computed from the wires. The
  -- parties (at least one) have the preprocessed data of the gates.
  pub evaluate_gates_at_depth-after_round :
      (gs : List (Gate R)) (states : List (Party R × Checks R))
      → 1 ≤ length states
      → EveryoneReady gs (parties states)
      → evaluate_gates_at_depth gs states ≡ map (after_round (opened (parties states)) gs) states
  unfolding evaluate_gates_at_depth
  evaluate_gates_at_depth-after_round gs states some_party h =
      ap (λ all. map (λ s. received_in_round s gs all) states)
        (ap₂ (λ n c. cut gs (exchange n (total_comm gs) c)) (sym (length-parties states))
            (comms_of gs states h)
          ∙ round_sums value_sent (parties states) gs
              (subst (λ n. 1 ≤ n) (sym (length-parties states)) some_party))
      ∙ ap (λ k. map k states)
          (fun_ext (λ s. received_in_round-after_round (opened (parties states)) gs s))
