-- ===== src/Bus/Retransmit/Tests.antt =====
-- Two NACKs are answered and the third poisons the pipe.
use qysnc_submission.Common.{ℕ, ◌+◌, ◌≡◌, refl, true, false, [], ◌∷◌, replicate, some, arith}
use qysnc_submission.Common.Map.{lookup, pair_eq}
use qysnc_submission.Bus.Tx.{TxState, TxRecord}
use qysnc_submission.Bus.Retransmit.{
  Nack, resent, over_cap, is_for_us, resend_fragment, handle_nack,
}
use qysnc_submission.Bus.Retransmit.Budget.{respond, retransmission_budget}

abbrev kept : TxRecord
kept = record { frag_total = 1; payload_len = 2; payload = 8 ∷ 9 ∷ []; nack_count = 0 }

abbrev sender : TxState
sender = record {
  local_seq = 4;
  tx_buf = ((3, 0), kept) ∷ [];
  tx_buf_order = 3 ∷ [];
  streams_in_flight = [];
  app_bytes = 2;
  datagrams_tx = 1;
  tx_buf_evictions = 0;
  retx_sends = 0;
  poisoned = false;
}

abbrev nack : Nack
nack = record {
  hdr_target = 1;
  missing_sender = 1;
  missing_target = 2;
  missing_seq = 3;
  missing_idx = 0;
  address = 102;
}

abbrev addresses : ℕ → ℕ
addresses pid = pid + 100

nack-ours : is_for_us addresses 1 4 nack ≡ true
unfolding is_for_us
nack-ours = refl

kept-found : lookup (3, 0) sender.tx_buf ≡ some kept
unfolding lookup
kept-found = refl

retransmission_budget_example :
    ((respond addresses 2 1 4 nack 2 sender).1
      ≡ replicate 2 (resent (resend_fragment 1 2 3 0 kept)))
    × ((handle_nack addresses 2 1 4 nack (respond addresses 2 1 4 nack 2 sender).0).1 ≡ over_cap)
    × ((handle_nack addresses 2 1 4 nack (respond addresses 2 1 4 nack 2 sender).0).0.poisoned
        ≡ true)
retransmission_budget_example =
    retransmission_budget addresses 2 1 4 nack nack-ours (omega arith) kept sender kept-found refl
