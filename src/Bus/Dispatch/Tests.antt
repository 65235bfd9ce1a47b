-- ===== src/Bus/Dispatch/Tests.antt =====
-- A fragment from party 0 at party 1, and one that is for party 2.
use qysnc_submission.Common.{
  not, ◌&&◌, ℕ, ◌+◌, ◌≡◌, ◌⊎◌, refl, ap₂, List, [], ◌∷◌, map, length, arith, if◌then◌else◌, ◌==◌,
  u16, false,
}
use qysnc_submission.Bus.Tx.{TxState, fragment_frame}
use qysnc_submission.Bus.Rx.{fresh, accept}
use qysnc_submission.Bus.Witness.{unseen}
use qysnc_submission.Bus.Retransmit.{ignored}
use qysnc_submission.Bus.Dispatch.{BusState, store_at, dispatch}
use qysnc_submission.Bus.Dispatch.Arrival.{Reaches, dispatch-fragment_frame, dispatch-reach}

-- A stand-in for AES-CTR that swaps two bytes.
abbrev swap : ℕ → ℕ
swap b = if b == 8 then 9 else if b == 9 then 8 else b

abbrev swap_bytes : ℕ → List ℕ → List ℕ → List ℕ
swap_bytes peer nonce bytes = map swap bytes

swap-swap : (b : ℕ) → swap (swap b) ≡ b
swap-swap b = ground arith

swap_bytes-swap_bytes :
    (nonce bytes : List ℕ) → swap_bytes 0 nonce (swap_bytes 0 nonce bytes) ≡ bytes
swap_bytes-swap_bytes nonce [] = refl
swap_bytes-swap_bytes nonce (b ∷ bytes) =
    ap₂ (λ x xs. x ∷ xs) (swap-swap b) (swap_bytes-swap_bytes nonce bytes)

length-swap_bytes : (nonce bytes : List ℕ) → length (swap_bytes 0 nonce bytes) ≡ length bytes
length-swap_bytes nonce [] = refl
length-swap_bytes nonce (b ∷ bytes) = omega (arith, length-swap_bytes nonce bytes)

abbrev addresses : ℕ → ℕ
addresses pid = pid + 100

abbrev idle : TxState
idle = record {
  local_seq = 7;
  tx_buf = [];
  tx_buf_order = [];
  streams_in_flight = [];
  app_bytes = 0;
  datagrams_tx = 0;
  tx_buf_evictions = 0;
  retx_sends = 0;
  poisoned = false;
}

abbrev listening : BusState
listening = record {
  rx = λ p. fresh;
  tx = λ p. idle;
  witness = λ s t. unseen;
  dropped_self = 0;
  dropped_unknown = 0;
  witness_dispatched = 0;
  nack_received_total = 0;
  nack_origin_dropped = 0;
}

abbrev sent_bytes : List ℕ
sent_bytes = 8 ∷ 5 ∷ []

dispatch-fragment_frame_example :
    dispatch swap_bytes addresses 101 4 1 3
      (fragment_frame 0 1 (swap_bytes 0) 0 0 1 sent_bytes)
      100
      listening
    ≡ (
      record listening { rx = store_at listening.rx 0 (accept fresh 0 (u16 0) (u16 1) sent_bytes) },
      ignored,
    )
dispatch-fragment_frame_example =
    dispatch-fragment_frame swap_bytes addresses 101 4 1 3 100 refl 0 0 1 0 sent_bytes listening
      swap_bytes-swap_bytes length-swap_bytes (omega arith) (omega arith) refl (omega arith)
      (omega arith)

abbrev for_another : List ℕ
for_another = fragment_frame 0 2 (swap_bytes 0) 0 0 1 sent_bytes

dispatch-reach_example :
    ((dispatch swap_bytes addresses 101 4 1 3 for_another 100 listening).0.rx 0 ≡ fresh)
    ⊎ (Reaches 1 3 for_another 0 × ((not (101 == 0) && (100 == 101)) ≡ false))
dispatch-reach_example = dispatch-reach swap_bytes addresses 101 4 1 3 100 for_another listening 0
