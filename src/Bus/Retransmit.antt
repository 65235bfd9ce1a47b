-- ===== src/Bus/Retransmit.antt =====
-- What a party does with a NACK: `handle_nack_` from the guards on, `resend_fragment_`, and the
-- poisoning of the pipe to a target.
pub mod Budget
mod Tests
use qysnc_submission.Common.{
  ℕ, ◌+◌, Bool, true, false, not, ◌&&◌, ◌||◌, List, [], ◌∷◌, Option, none, some, ltb, leb, ◌==◌,
  if◌then◌else◌, u32, u64,
}
use qysnc_submission.Common.Map.{lookup, insert, pair_eq}
use qysnc_submission.Bus.Wire.{data_frame}
use qysnc_submission.Bus.Tx.{TxRecord, TxState, contains}

-- The fields of a NACK, with the address that it came from.
pub record Nack : Type 0 where
  pub hdr_target : ℕ
  pub missing_sender : ℕ
  pub missing_target : ℕ
  pub missing_seq : ℕ
  pub missing_idx : ℕ
  pub address : ℕ

-- What it leads to: nothing, a datagram sent again, or a POISON for the target.
pub data Answer : Type 0 where
  ignored : Answer
  not_yet : Answer
  resent : List ℕ → Answer
  over_cap : Answer
  evicted : Answer

-- The guards on the header, the body and the origin.
pub is_for_us : (ℕ → ℕ) → ℕ → ℕ → Nack → Bool
is_for_us ip_table self n_parties nack =
    (nack.hdr_target == self)
    && (nack.missing_sender == self)
    && ltb nack.missing_target n_parties
    && not (nack.missing_target == self)
    && (nack.address == ip_table nack.missing_target)

-- `resend_fragment_`: the record's bytes go out as they are.
pub resend_fragment : ℕ → ℕ → ℕ → ℕ → TxRecord → List ℕ
resend_fragment self target seq idx rec = data_frame self target seq idx rec.frag_total rec.payload

-- The part under the lock, with what follows from it; `tx` is `tx_[missing_target]`.
pub retransmit : ℕ → ℕ → ℕ → ℕ → ℕ → TxState → TxState × Answer
unfolding resend_fragment contains
retransmit retx_k_send self target seq idx tx = elim (lookup (seq, idx) tx.tx_buf) [
  | none ↦
      if leb tx.local_seq seq || contains tx.streams_in_flight seq
      then (tx, not_yet)
      else (record tx { poisoned = true }, evicted)
  | some rec ↦
      let counted = record rec { nack_count = u32 (rec.nack_count + 1) } in
      let noted = record tx { tx_buf = insert (seq, idx) counted tx.tx_buf } in
      if ltb retx_k_send counted.nack_count then (record noted { poisoned = true }, over_cap) else (
        record noted { retx_sends = u64 (noted.retx_sends + 1) },
        resent (resend_fragment self target seq idx counted),
      )
]

-- `handle_nack_` of a frame that is long enough.
pub handle_nack : (ℕ → ℕ) → ℕ → ℕ → ℕ → Nack → TxState → TxState × Answer
unfolding is_for_us retransmit
handle_nack ip_table retx_k_send self n_parties nack tx =
    if is_for_us ip_table self n_parties nack && not tx.poisoned
    then retransmit retx_k_send self nack.missing_target nack.missing_seq nack.missing_idx tx
    else (tx, ignored)
