-- ===== src/Bus/Tx.antt =====
-- The sending side for one target: `TxState`, `send`, and `handle_nack_` with `resend_fragment_`.
-- A call holds the lock where it changes the state; the waits of the scheduler (Tdma) around each
-- `sendto` change nothing here. `crypt` is `aes_ctr::crypt` under the pair's key, and the answers of
-- `sendto` are a list, one for each call.
pub mod Fragments
pub mod Returns
mod Tests
use qysnc_submission.Common.{
  ℕ, zero, suc, ◌+◌, ◌-◌, ◌/◌, ◌^◌, Bool, true, false, not, ◌&&◌, ◌||◌, List, [], ◌∷◌, ◌++◌, Option,
  none, some, ltb, leb, ◌==◌, if◌then◌else◌, length, take, drop, u16, u32, u64,
}
use qysnc_submission.Common.Map.{lookup, insert, pair_eq}
use qysnc_submission.Bus.Wire.{data_frame, build_nonce, max_payload}

pub record TxRecord : Type 0 where
  pub frag_total : ℕ
  pub payload_len : ℕ
  pub payload : List ℕ
  pub nack_count : ℕ

pub record TxState : Type 0 where
  pub local_seq : ℕ
  pub tx_buf : List ((ℕ × ℕ) × TxRecord)
  pub tx_buf_order : List ℕ
  pub streams_in_flight : List ℕ
  pub app_bytes : ℕ
  pub datagrams_tx : ℕ
  pub tx_buf_evictions : ℕ
  pub retx_sends : ℕ
  pub poisoned : Bool

-- `TX_BUF_CAP_STREAMS`
abbrev pub tx_buf_cap_streams : ℕ
tx_buf_cap_streams = 4096

-- `count` and `erase` of a `std::set`.
unfoldable pub contains : List ℕ → ℕ → Bool
contains [] n = false
contains (m ∷ ms) n = (m == n) || contains ms n

unfoldable pub remove : List ℕ → ℕ → List ℕ
remove [] n = []
remove (m ∷ ms) n = if m == n then remove ms n else m ∷ remove ms n

-- `erase(lower_bound({old, 0}), upper_bound({old, UINT16_MAX}))`: all fragments of a message.
pub erase_stream : ℕ → List ((ℕ × ℕ) × TxRecord) → List ((ℕ × ℕ) × TxRecord)
erase_stream old [] = []
erase_stream old (((seq, idx), rec) ∷ m) =
    if seq == old then erase_stream old m else ((seq, idx), rec) ∷ erase_stream old m

-- The loop over `tx_buf_order`, on the messages that are in it.
pub evict : List ℕ → TxState → TxState
unfolding erase_stream
evict [] s = s
evict (old ∷ order) s =
    let shorter = evict order (record s {
      tx_buf_order = order;
      tx_buf = erase_stream old s.tx_buf;
      tx_buf_evictions = u64 (s.tx_buf_evictions + 1);
    }) in
    if ltb tx_buf_cap_streams (length (old ∷ order)) then shorter else s

-- The record that is kept of a fragment; with the first one, the message is put in the order.
pub keep_record : TxState → ℕ → ℕ → ℕ → List ℕ → TxState
unfolding evict
keep_record s seq i total payload =
    let kept = record s {
      tx_buf =
          insert (seq, u16 i)
            (record {
              frag_total = u16 total;
              payload_len = length payload;
              payload = payload;
              nack_count = 0;
            })
            s.tx_buf;
    } in
    if i == 0
    then evict (s.tx_buf_order ++ (seq ∷ []))
        (record kept { tx_buf_order = s.tx_buf_order ++ (seq ∷ []) })
    else kept

-- What `sendto` answers: the datagram is out, `EAGAIN`, or another error.
pub data SendTo : Type 0 where
  sent : SendTo
  again : SendTo
  failed : SendTo

-- How `send` ends, with the datagrams that went out: it returns, dies, throws, or the answers are
-- used up while it was still sending.
pub data Sent : Type 0 where
  returned : TxState → List (List ℕ) → Sent
  died : TxState → List (List ℕ) → Sent
  poisoned_error : Sent
  starved : TxState → List (List ℕ) → Sent

-- `total` of a message of `len` bytes.
pub frag_count : ℕ → ℕ
frag_count len = if len == 0 then 1 else u32 ((len + max_payload - 1) / max_payload)

module _ (self target : ℕ) (crypt : List ℕ → List ℕ → List ℕ) where
  -- The fragment as it goes out: encrypted where it has bytes.
  unfoldable pub sealed : ℕ → ℕ → List ℕ → List ℕ
  sealed seq i [] = []
  sealed seq i (b ∷ chunk) = crypt (build_nonce 0 self target seq (u16 i)) (b ∷ chunk)

  unfoldable pub fragment_frame : ℕ → ℕ → ℕ → List ℕ → List ℕ
  unfolding sealed
  fragment_frame seq i total chunk =
      data_frame self target seq (u16 i) (u16 total) (sealed seq i chunk)

  -- The loop of `send` from the fragment `i`, with the bytes from `off` on in `bytes` and what went
  -- out in `frames`. After `EAGAIN` the whole round is done again.
  pub send_loop : List SendTo → ℕ → ℕ → ℕ → List ℕ → TxState → List (List ℕ) → Sent
  unfolding keep_record sealed fragment_frame
  send_loop [] seq total i bytes s frames =
      if ltb i total then starved s frames else returned s frames
  send_loop (answer ∷ answers) seq total i bytes s frames =
      let chunk = take max_payload bytes in
      let kept = keep_record s seq i total (sealed seq i chunk) in
      let retried = send_loop answers seq total i bytes kept frames in
      let next =
        send_loop answers seq total (i + 1) (drop max_payload bytes)
          (record kept { datagrams_tx = u64 (kept.datagrams_tx + 1) })
          (frames ++ (fragment_frame seq i total chunk ∷ [])) in
      let round : Sent = elim answer [
        | sent ↦ next
        | again ↦ retried
        | failed ↦ died kept frames
      ] in
      if ltb i total then round else returned s frames

  -- After the loop.
  pub finish : ℕ → ℕ → Sent → Sent
  finish seq len (returned s frames) =
      returned
        (record s {
          app_bytes = u64 (s.app_bytes + len);
          streams_in_flight = remove s.streams_in_flight seq;
        })
        frames
  finish seq len (died s frames) = died s frames
  finish seq len poisoned_error = poisoned_error
  finish seq len (starved s frames) = starved s frames

  -- `send` to a target in range.
  pub send : List SendTo → TxState → List ℕ → Sent
  unfolding send_loop finish frag_count
  send answers s bytes =
      let seq = s.local_seq in
      let begun = record s {
        local_seq = u32 (seq + 1);
        streams_in_flight = seq ∷ s.streams_in_flight;
      } in
      let ended =
        finish seq (length bytes)
          (send_loop answers seq (frag_count (length bytes)) 0 bytes begun []) in
      if s.poisoned then poisoned_error else ended
