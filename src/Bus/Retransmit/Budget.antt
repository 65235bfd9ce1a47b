-- ===== src/Bus/Retransmit/Budget.antt =====
-- The budget of retransmissions of one fragment.
use native.Mathlib.Nat.{mod-eq_of_lt}
use qysnc_submission.Common.{
  ℕ, zero, suc, ◌+◌, ◌^◌, ◌-◌, ◌≤◌, ◌<◌, ◌≡◌, refl, ◌∙◌, ap, ap₂, subst, true, false, List, [], ◌∷◌,
  replicate, some, if◌then◌else◌, arith, lt→ltb, le→ltb,
}
use qysnc_submission.Common.Map.{lookup, insert, pair_eq, lookup-insert, pair_beq_iff}
use qysnc_submission.Bus.Tx.{TxState, TxRecord}
use qysnc_submission.Bus.Retransmit.{
  Nack, Answer, resent, over_cap, is_for_us, retransmit, resend_fragment, handle_nack,
}

module _ (ip_table : ℕ → ℕ) (k self n_parties : ℕ) (nack : Nack) where
  -- The same NACK, again and again: the state and the answers.
  unfoldable pub respond : ℕ → TxState → TxState × List Answer
  respond zero tx = (tx, [])
  respond (suc n) tx =
      let (tx', answer) = handle_nack ip_table k self n_parties nack tx in
      let (tx'', answers) = respond n tx' in (tx'', answer ∷ answers)

  -- A record of the fragment that has been asked for `n` times, on a pipe in use.
  record Kept (rec : TxRecord) (n : ℕ) (tx : TxState) : Type 0 where
    there :
        lookup (nack.missing_seq, nack.missing_idx) tx.tx_buf ≡ some (record rec { nack_count = n })
    open_pipe : tx.poisoned ≡ false

  module _ (ours : is_for_us ip_table self n_parties nack ≡ true) (small : k < 2 ^ 32 - 1)
      (rec : TxRecord) where
    resends :
        (n : ℕ) (tx : TxState)
        → n < k
        → Kept rec n tx
        → ((handle_nack ip_table k self n_parties nack tx).1
            ≡ resent
                (resend_fragment self nack.missing_target nack.missing_seq nack.missing_idx rec))
          × Kept rec (n + 1) (handle_nack ip_table k self n_parties nack tx).0
    unfolding handle_nack retransmit resend_fragment
    resends n tx lt h =
        rw
          (
            ours,
            h.open_pipe,
            h.there,
            mod-eq_of_lt {n = n + 1} {m = 2 ^ 32} (omega arith),
            le→ltb k (n + 1) (omega arith),
            handle_nack,
            retransmit,
          )
          (refl, record { there = stored; open_pipe = h.open_pipe })
      where
        key : ℕ × ℕ
        key = (nack.missing_seq, nack.missing_idx)

        again : TxRecord
        again = record rec { nack_count = n + 1 }

        stored : lookup key (insert key again tx.tx_buf) ≡ some again
        stored =
            lookup-insert key key again tx.tx_buf
            ∙ ap (λ b. if b then some again else lookup key tx.tx_buf)
                ((pair_beq_iff key key).1 refl)

    gives_up :
        (tx : TxState)
        → Kept rec k tx
        → ((handle_nack ip_table k self n_parties nack tx).1 ≡ over_cap)
          × ((handle_nack ip_table k self n_parties nack tx).0.poisoned ≡ true)
    unfolding handle_nack retransmit
    gives_up tx h =
        rw
          (
            ours,
            h.open_pipe,
            h.there,
            mod-eq_of_lt {n = k + 1} {m = 2 ^ 32} (omega arith),
            lt→ltb k (k + 1) (omega arith),
            handle_nack,
            retransmit,
          )
          (refl, refl)

    respond-resent :
        (n c : ℕ) (tx : TxState)
        → c + n ≤ k
        → Kept rec c tx
        → ((respond n tx).1
            ≡ replicate n (
                resent
                  (resend_fragment self nack.missing_target nack.missing_seq nack.missing_idx rec)))
          × Kept rec (c + n) (respond n tx).0
    unfolding respond
    respond-resent zero c tx le h = (refl, subst (λ m. Kept rec m tx) (omega arith) h)
    respond-resent (suc n) c tx le h =
        let (now, kept) = resends c tx (omega arith) h in
        let (later, left) =
          respond-resent n (c + 1) (handle_nack ip_table k self n_parties nack tx).0 (omega arith)
            kept in
        (
          ap₂ ◌∷◌ now later,
          subst (λ m. Kept rec m (respond n (handle_nack ip_table k self n_parties nack tx).0).0)
              (omega arith) left,
        )

    -- A party answers the first `retx_k_send` NACKs for a fragment that it keeps with the same
    -- datagram each time, made of the bytes it kept; the next one poisons the pipe. This is for
    -- NACKs that pass the guards, and a limit below 2^32 - 1.
    pub retransmission_budget :
        (tx : TxState)
        → lookup (nack.missing_seq, nack.missing_idx) tx.tx_buf
          ≡ some (record rec { nack_count = 0 })
        → tx.poisoned ≡ false
        → ((respond k tx).1
            ≡ replicate k (
                resent
                  (resend_fragment self nack.missing_target nack.missing_seq nack.missing_idx rec)))
          × ((handle_nack ip_table k self n_parties nack (respond k tx).0).1 ≡ over_cap)
          × ((handle_nack ip_table k self n_parties nack (respond k tx).0).0.poisoned ≡ true)
    retransmission_budget tx there off =
        let (all, kept) =
          respond-resent k 0 tx (omega arith) (record { there = there; open_pipe = off }) in
        let (stops, poisons) =
          gives_up (respond k tx).0 (subst (λ m. Kept rec m (respond k tx).0) (omega arith) kept) in
        (all, stops, poisons)
