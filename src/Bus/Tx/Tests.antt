-- ===== src/Bus/Tx/Tests.antt =====
-- A message sent in two fragments, and each theorem at an input.
use qysnc_submission.Common.{
  ℕ, ◌+◌, ◌≤◌, ◌≡◌, refl, false, List, [], ◌∷◌, replicate, arith, length, map, get_or, ◌%◌,
}
use qysnc_submission.Bus.Rx.{concat}
use qysnc_submission.Bus.Rx.Frags.{AllFull}
use qysnc_submission.Bus.Tx.{TxState, SendTo, sent, again, returned, frag_count, send}
use qysnc_submission.Bus.Tx.Fragments.{frames_from, Lets, send-fragments}
use qysnc_submission.Bus.Tx.Returns.{send_returns}

abbrev idle : TxState
idle = record {
  local_seq = 7;
  tx_buf = [];
  tx_buf_order = [];
  streams_in_flight = [];
  app_bytes = 0;
  datagrams_tx = 0;
  tx_buf_evictions = 0;
  retx_sends = 0;
  poisoned = false;
}

-- A stand-in for AES-CTR that shifts the bytes by the index in the nonce.
abbrev mask_bytes : List ℕ → List ℕ → List ℕ
mask_bytes nonce bytes = map (λ b. (b + get_or nonce 8 0) % 256) bytes

abbrev message : List ℕ
message = replicate 1401 9

-- `sendto` is busy once, before the second fragment.
abbrev answers : List SendTo
answers = sent ∷ again ∷ sent ∷ []

answers-Lets : Lets (frag_count (length message)) answers
unfolding Lets frag_count
answers-Lets = tt

send_returns_example :
    (s' : TxState) × (out : List (List ℕ)) × (send 1 2 mask_bytes answers idle message
      ≡ returned s' out)
send_returns_example = send_returns 1 2 mask_bytes answers idle message refl answers-Lets

send-fragments_example :
    (cs : List (List ℕ)) × (send_returns_example.1 ≡ frames_from 1 2 mask_bytes 7 (length cs) 0 cs)
    × (concat cs ≡ message)
    × AllFull cs
    × (length cs ≤ 65535)
send-fragments_example =
    send-fragments 1 2 mask_bytes answers idle message (omega arith) (omega arith)
      send_returns_example.2
