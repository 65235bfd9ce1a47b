-- ===== src/Bus/Dispatch/Arrival.antt =====
-- A fragment that `send` sends arrives in the clear at the pipe of its sender; no datagram reaches
-- another pipe.
use qysnc_submission.Common.{
  ℕ, ◌+◌, ◌^◌, ◌<◌, ◌≡◌, refl, ap, ◌∙◌, true, false, not, ◌&&◌, Bool-cases, ◌⊎◌, inl, inr, List, [],
  ◌∷◌, ◌++◌, ltb, leb, ◌==◌, length, u16, arith,
}
use qysnc_submission.Bus.Wire.{
  header_size, kind_data, Header, read_header, header_bytes, build_nonce, data_frame,
}
use qysnc_submission.Bus.Wire.Codec.{Fits, read_header-header_bytes}
use qysnc_submission.Bus.Rx.{accept}
use qysnc_submission.Bus.Tx.{sealed, fragment_frame}
use qysnc_submission.Bus.Retransmit.{ignored}
use qysnc_submission.Bus.Dispatch.{
  BusState, store_at, opened, handle_data, handle_poison, handle_nack_frame, dispatch,
}

length-sealed :
    (crypt : ℕ → List ℕ → List ℕ → List ℕ) (sender self seq i : ℕ) (chunk : List ℕ)
    → ((nonce bytes : List ℕ) → length (crypt sender nonce bytes) ≡ length bytes)
    → length chunk < 2 ^ 32
    → length (sealed sender self (crypt sender) seq i chunk) < 2 ^ 32
unfolding sealed
length-sealed crypt sender self seq i [] keeps h = h
length-sealed crypt sender self seq i (b ∷ chunk) keeps h =
    rw (keeps (build_nonce 0 sender self seq (u16 i)) (b ∷ chunk)) h

-- What may change the pipe from `p`.
pub Reaches : ℕ → ℕ → List ℕ → ℕ → Type 0
Reaches self n_parties buf p =
    ((read_header buf).sender ≡ p)
    × ((read_header buf).target ≡ self)
    × (p < n_parties)
    × ((p == self) ≡ false)

module _ (crypt : ℕ → List ℕ → List ℕ → List ℕ) (self n_parties : ℕ) where
  handle_data-reach :
      (buf : List ℕ) (bus : BusState) (p : ℕ)
      → ((handle_data crypt self n_parties buf bus).rx p ≡ bus.rx p) ⊎ Reaches self n_parties buf p
  unfolding handle_data Reaches
  handle_data-reach buf bus p = ground arith

  handle_poison-reach :
      (buf : List ℕ) (bus : BusState) (p : ℕ)
      → ((handle_poison self n_parties buf bus).rx p ≡ bus.rx p) ⊎ Reaches self n_parties buf p
  unfolding handle_poison Reaches
  handle_poison-reach buf bus p = ground arith

  -- The part of the pump that reads the frame.
  opened-sealed :
      (sender seq i total : ℕ) (chunk : List ℕ)
      → ((nonce bytes : List ℕ) → crypt sender nonce (crypt sender nonce bytes) ≡ bytes)
      → ((nonce bytes : List ℕ) → length (crypt sender nonce bytes) ≡ length bytes)
      → opened crypt self n_parties
          (record {
            kind = kind_data;
            sender = sender;
            target = self;
            seq = seq;
            idx = u16 i;
            total = total;
            payload_len = length (sealed sender self (crypt sender) seq i chunk);
          })
          (sealed sender self (crypt sender) seq i chunk)
        ≡ chunk
  unfolding opened sealed
  opened-sealed sender seq i total [] inverse keeps = refl
  opened-sealed sender seq i total (b ∷ chunk) inverse keeps =
      let positive : ltb 0 (length (b ∷ chunk)) ≡ true = ground arith in
      rw (keeps (build_nonce 0 sender self seq (u16 i)) (b ∷ chunk), positive)
        (inverse (build_nonce 0 sender self seq (u16 i)) (b ∷ chunk))

  handle_data-header :
      (h : Header) (rest : List ℕ) (bus : BusState)
      → Fits h
      → h.payload_len ≡ length rest
      → h.sender < n_parties
      → self < n_parties
      → (h.sender == self) ≡ false
      → h.target ≡ self
      → handle_data crypt self n_parties (header_bytes h ++ rest) bus ≡ record bus {
        rx =
            store_at bus.rx h.sender
              (accept (bus.rx h.sender) h.seq h.idx h.total (opened crypt self n_parties h rest));
      }
  unfolding handle_data
  handle_data-header h rest bus fits len below own apart ours =
      let (e, l, d) = read_header-header_bytes h rest fits in
      let b1 : leb n_parties h.sender ≡ false = ground arith in
      let b2 : leb n_parties self ≡ false = ground arith in
      let b3 : (header_size + length rest == header_size + length rest) ≡ true = ground arith in
      let b4 : (self == self) ≡ true = ground arith in
      rw (e, l, d, len, ours, apart, b1, b2, b3, b4) refl

module _ (crypt : ℕ → List ℕ → List ℕ → List ℕ) (ip_table : ℕ → ℕ)
    (own_ip retx_k_send self n_parties address : ℕ)
    (foreign : (not (own_ip == 0) && (address == own_ip)) ≡ false) where
  dispatch-header :
      (h : Header) (rest : List ℕ) (bus : BusState)
      → Fits h
      → h.kind ≡ kind_data
      → dispatch crypt ip_table own_ip retx_k_send self n_parties
          (header_bytes h ++ rest)
          address
          bus
        ≡ (handle_data crypt self n_parties (header_bytes h ++ rest) bus, ignored)
  unfolding dispatch
  dispatch-header h rest bus fits kind =
      let (e, l, d) = read_header-header_bytes h rest fits in
      let b1 : (length (header_bytes h ++ rest) == 0) ≡ false = ground (arith, l) in
      let b2 : ltb (length (header_bytes h ++ rest)) header_size ≡ false = ground (arith, l) in
      let b3 : ((read_header (header_bytes h ++ rest)).kind == kind_data) ≡ true =
        rw (e, kind) refl in
      rw (b1, foreign, b2, b3) refl

  -- A fragment that `send` sends to this party from another one, as `fragment_frame` builds it, makes
  -- the pump run `accept` on the pipe of its sender with the sender's bytes in the clear, and change
  -- nothing else. It holds where decryption undoes encryption and keeps the length, the ids are those
  -- of two parties, the number of the message and the length fit 32 bits, and the datagram does not
  -- come from the party's own address.
  pub dispatch-fragment_frame :
      (sender seq total i : ℕ) (chunk : List ℕ) (bus : BusState)
      → ((nonce bytes : List ℕ) → crypt sender nonce (crypt sender nonce bytes) ≡ bytes)
      → ((nonce bytes : List ℕ) → length (crypt sender nonce bytes) ≡ length bytes)
      → sender < n_parties
      → self < n_parties
      → (sender == self) ≡ false
      → seq < 2 ^ 32
      → length chunk < 2 ^ 32
      → dispatch crypt ip_table own_ip retx_k_send self n_parties
          (fragment_frame sender self (crypt sender) seq i total chunk)
          address
          bus
        ≡ (
          record bus {
            rx = store_at bus.rx sender (accept (bus.rx sender) seq (u16 i) (u16 total) chunk);
          },
          ignored,
        )
  unfolding fragment_frame data_frame
  dispatch-fragment_frame sender seq total i chunk bus inverse keeps below own apart hs hl =
      let body = sealed sender self (crypt sender) seq i chunk in
      let h : Header = record {
        kind = kind_data;
        sender = sender;
        target = self;
        seq = seq;
        idx = u16 i;
        total = u16 total;
        payload_len = length body;
      } in
      let fits : Fits h = record {
        kind_fits = omega arith;
        seq_fits = hs;
        idx_fits = omega arith;
        total_fits = omega arith;
        payload_len_fits = length-sealed crypt sender self seq i chunk keeps hl;
      } in
      dispatch-header h body bus fits refl
      ∙ ap (λ b. (b, ignored))
          (handle_data-header crypt self n_parties h body bus fits refl below own apart refl
            ∙ ap
                (λ c. record bus {
                  rx = store_at bus.rx sender (accept (bus.rx sender) seq (u16 i) (u16 total) c);
                })
                (opened-sealed crypt self n_parties sender seq i (u16 total) chunk inverse keeps))

module _ (crypt : ℕ → List ℕ → List ℕ → List ℕ) (ip_table : ℕ → ℕ)
    (own_ip retx_k_send self n_parties address : ℕ) where
  handle_nack_frame-rx :
      (buf : List ℕ) (bus : BusState)
      → (handle_nack_frame ip_table retx_k_send self n_parties buf address bus).0.rx ≡ bus.rx
  unfolding handle_nack_frame
  handle_nack_frame-rx buf bus = elim (Bool-cases (ltb (length buf) (header_size + 12))) [
    | inl b ↦ rw b refl
    | inr b ↦ rw b refl
  ]

  -- Whatever datagram comes, from whatever address, the pump leaves the receiving pipe from `p` as it
  -- is, or all of this holds: the header names `p` as the sender and this party as the target, `p` is
  -- another party, and the datagram does not come from the party's own address, if that is known.
  pub dispatch-reach :
      (buf : List ℕ) (bus : BusState) (p : ℕ)
      → ((dispatch crypt ip_table own_ip retx_k_send self n_parties buf address bus).0.rx p
          ≡ bus.rx p)
        ⊎ (Reaches self n_parties buf p × ((not (own_ip == 0) && (address == own_ip)) ≡ false))
  unfolding dispatch
  dispatch-reach buf bus p =
      let data_reach = handle_data-reach crypt self n_parties buf bus p in
      let poison_reach = handle_poison-reach crypt self n_parties buf bus p in
      let nack_rx = ap (λ f. f p) (handle_nack_frame-rx buf bus) in
      ground (arith, data_reach, poison_reach, nack_rx)
