-- ===== src/Bus/Dispatch.antt =====
-- code/src/io/bcast_bus.cpp: what the pump does with one datagram, in `pump_loop_`, `handle_data_`,
-- `handle_nack_` and `handle_poison_`. `crypt peer` is `aes_ctr::crypt` under the key of the pair.
pub mod Arrival
mod Tests
use qysnc_submission.Common.{
  ℕ, ◌+◌, ◌^◌, ◌<◌, ◌≡◌, Bool, true, false, not, ◌&&◌, ◌||◌, List, [], ◌∷◌, ltb, leb, ◌==◌,
  if◌then◌else◌, length, drop, u64,
}
use qysnc_submission.Bus.Wire.{
  header_size, max_payload, kind_data, kind_nack, kind_poison, byte_at, read_u16, read_u32, Header,
  read_header, build_nonce,
}
use qysnc_submission.Bus.Rx.{RxState, accept, mark_poisoned}
use qysnc_submission.Bus.Tx.{TxState}
use qysnc_submission.Bus.Retransmit.{Nack, Answer, ignored, handle_nack}
use qysnc_submission.Bus.Witness.{WitnessState, witness_observe}

-- `rx_`, `tx_`, the witness states and the counters.
pub record BusState : Type 0 where
  pub rx : ℕ → RxState
  pub tx : ℕ → TxState
  pub witness : ℕ → ℕ → WitnessState
  pub dropped_self : ℕ
  pub dropped_unknown : ℕ
  pub witness_dispatched : ℕ
  pub nack_received_total : ℕ
  pub nack_origin_dropped : ℕ

-- An array with one entry written.
abbrev pub store_at {ℓ} : {A : Type ℓ} → (ℕ → A) → ℕ → A → ℕ → A
store_at f i x j = if i == j then x else f j

module _ (crypt : ℕ → List ℕ → List ℕ → List ℕ) (self n_parties : ℕ) where
  -- The payload in the clear.
  pub opened : Header → List ℕ → List ℕ
  opened h body =
      if ltb 0 h.payload_len
      then crypt h.sender (build_nonce 0 h.sender self h.seq h.idx) body
      else body

  pub handle_data : List ℕ → BusState → BusState
  unfolding opened
  handle_data buf bus =
      let h = read_header buf in
      if h.sender == self || leb n_parties h.sender || leb n_parties h.target
      then record bus { dropped_unknown = u64 (bus.dropped_unknown + 1) }
      else if not (length buf == header_size + h.payload_len)
      then record bus { dropped_unknown = u64 (bus.dropped_unknown + 1) }
      else if not (h.target == self)
      then record bus {
        witness = store_at bus.witness h.sender (
            store_at (bus.witness h.sender) h.target
              (witness_observe (bus.witness h.sender h.target) h.seq));
        witness_dispatched = u64 (bus.witness_dispatched + 1);
      }
      else record bus {
        rx =
            store_at bus.rx h.sender
              (accept (bus.rx h.sender) h.seq h.idx h.total (opened h (drop header_size buf)));
      }

-- `handle_poison_`; the reason is only printed.
pub handle_poison : ℕ → ℕ → List ℕ → BusState → BusState
handle_poison self n_parties buf bus =
    let h = read_header buf in
    let plen = if ltb max_payload h.payload_len then 0 else h.payload_len in
    if not (h.target == self)
      || leb n_parties h.sender
      || (h.sender == self)
      || ltb (length buf) (header_size + plen)
    then bus
    else record bus { rx = store_at bus.rx h.sender (mark_poisoned (bus.rx h.sender)) }

-- The fields of a NACK in a datagram.
pub read_nack : List ℕ → ℕ → Nack
read_nack buf address = record {
  hdr_target = byte_at buf 5;
  missing_sender = byte_at buf 20;
  missing_target = byte_at buf 21;
  missing_seq = read_u32 buf 24;
  missing_idx = read_u16 buf 28;
  address = address;
}

module _ (ip_table : ℕ → ℕ) (retx_k_send self n_parties : ℕ) where
  -- The guards up to the one on the origin, which fails.
  pub has_wrong_origin : Nack → Bool
  has_wrong_origin nack =
      (nack.hdr_target == self)
      && (nack.missing_sender == self)
      && ltb nack.missing_target n_parties
      && not (nack.missing_target == self)
      && not (nack.address == ip_table nack.missing_target)

  pub handle_nack_frame : List ℕ → ℕ → BusState → BusState × Answer
  unfolding read_nack has_wrong_origin
  handle_nack_frame buf address bus =
      let counted = record bus { nack_received_total = u64 (bus.nack_received_total + 1) } in
      let nack = read_nack buf address in
      let (tx, answer) =
        handle_nack ip_table retx_k_send self n_parties nack (bus.tx nack.missing_target) in
      if ltb (length buf) (header_size + 12) then (counted, ignored) else (
        record counted {
          tx = store_at bus.tx nack.missing_target tx;
          nack_origin_dropped =
              (if has_wrong_origin nack
                then u64 (bus.nack_origin_dropped + 1)
                else bus.nack_origin_dropped);
        },
        answer,
      )

-- One datagram of the pump, with the address that it came from; `own_ip` is 0 where it is not known.
pub dispatch :
    (ℕ → List ℕ → List ℕ → List ℕ)
    → (ℕ → ℕ)
    → ℕ
    → ℕ
    → ℕ
    → ℕ
    → List ℕ
    → ℕ
    → BusState
    → BusState × Answer
unfolding handle_data handle_nack_frame handle_poison
dispatch crypt ip_table own_ip retx_k_send self n_parties buf address bus =
    let kind = (read_header buf).kind in
    if length buf == 0
    then (bus, ignored)
    else if not (own_ip == 0) && (address == own_ip)
    then (record bus { dropped_self = u64 (bus.dropped_self + 1) }, ignored)
    else if ltb (length buf) header_size
    then (bus, ignored)
    else if kind == kind_data
    then (handle_data crypt self n_parties buf bus, ignored)
    else if kind == kind_nack
    then handle_nack_frame ip_table retx_k_send self n_parties buf address bus
    else if kind == kind_poison
    then (handle_poison self n_parties buf bus, ignored)
    else (bus, ignored)
