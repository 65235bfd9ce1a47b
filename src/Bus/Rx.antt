-- ===== src/Bus/Rx.antt =====
-- The receiving side for one sender: `RxState`, `handle_data_` once the frame is known to be ours,
-- `drain_pending_locked_`, `recv`, and the poisoning of the pipe.
pub mod Frags
pub mod Read
pub mod Stream
pub mod Deliver
pub mod Drain
pub mod Complete
pub mod Keep
pub mod Arrive
pub mod Run
mod Tests
use qysnc_submission.Common.{
  ℕ, zero, suc, ◌+◌, ◌-◌, ◌*◌, ◌≤◌, Bool, true, false, not, ◌&&◌, ◌||◌, List, [], ◌∷◌, ◌++◌, Option,
  none, some, ltb, leb, ◌==◌, if◌then◌else◌, length, get_or, set, take, drop, replicate, u32,
}
use qysnc_submission.Common.Map.{lookup, insert, erase, nat_eq, pair_eq}

-- `Partial`; a fragment that has not arrived is empty.
pub record Partial : Type 0 where
  pub frag_total : ℕ
  pub received : ℕ
  pub frags : List (List ℕ)

pub record Chunk : Type 0 where
  pub bytes : List ℕ
  pub offset : ℕ

pub record NackRec : Type 0 where
  pub attempts : ℕ
  pub last_nack_ns : ℕ

pub record RxState : Type 0 where
  pub next_rx_seq : ℕ
  pub max_seen_seq : ℕ
  pub any_seen : Bool
  pub pending : List (ℕ × Partial)
  pub rx : List Chunk
  pub rx_bytes : ℕ
  pub nack_state : List ((ℕ × ℕ) × NackRec)
  pub datagrams_rx : ℕ
  pub poisoned : Bool

abbrev pub fresh : RxState
fresh = record {
  next_rx_seq = 0;
  max_seen_seq = 0;
  any_seen = false;
  pending = [];
  rx = [];
  rx_bytes = 0;
  nack_state = [];
  datagrams_rx = 0;
  poisoned = false;
}

abbrev pub is_empty {ℓ} : {A : Type ℓ} → List A → Bool
is_empty [] = true
is_empty (x ∷ xs) = false

abbrev pub concat : List (List ℕ) → List ℕ
concat [] = []
concat (f ∷ fs) = f ++ concat fs

-- `rx.push_back`, which both ways of delivery do only for a message with bytes.
pub push_chunk : RxState → List ℕ → RxState
push_chunk s bytes = if is_empty bytes then s else record s {
  rx = s.rx ++ (record { bytes = bytes; offset = 0 } ∷ []);
  rx_bytes = s.rx_bytes + length bytes;
}

-- The body of the loop of `drain_pending_locked_`: the complete message `p` is delivered.
pub deliver : RxState → Partial → RxState
unfolding push_chunk
deliver s p = record (push_chunk s (concat p.frags)) {
  pending = erase s.next_rx_seq s.pending;
  next_rx_seq = u32 (s.next_rx_seq + 1);
}

-- The loop of `drain_pending_locked_`. Each round erases an entry, so the number of entries is fuel
-- enough (`Rx.Drain`).
pub drain : ℕ → RxState → RxState
unfolding deliver
drain zero s = s
drain (suc fuel) s = elim (lookup s.next_rx_seq s.pending) [
  | none ↦ s
  | some p ↦ let rest = drain fuel (deliver s p) in if p.received == p.frag_total then rest else s
]

pub drain_pending : RxState → RxState
unfolding drain
drain_pending s = drain (length s.pending) s

abbrev pub empty_partial : Partial
empty_partial = record { frag_total = 0; received = 0; frags = [] }

-- `rs.pending[seq]`
abbrev pub partial_or : Option Partial → Partial
partial_or none = empty_partial
partial_or (some p) = p

abbrev pub resize : List (List ℕ) → ℕ → List (List ℕ)
resize fs n = take n fs ++ replicate (n - length fs) []

-- The first fragment of a message fixes the number of its fragments.
pub sized : Partial → ℕ → Partial
sized p total =
    if p.frag_total == 0 then record p { frag_total = total; frags = resize p.frags total } else p

-- A fragment is stored where none is yet; the count goes up also for an empty one.
pub store : Partial → ℕ → List ℕ → Partial
store p idx payload =
    if ltb idx p.frag_total && is_empty (get_or p.frags idx [])
    then record p {
      frags = (if is_empty payload then p.frags else set p.frags idx payload);
      received = p.received + 1;
    }
    else p

-- The bookkeeping of every frame for us, late ones included.
pub note_frame : RxState → ℕ → ℕ → RxState
note_frame s seq idx = record s {
  datagrams_rx = s.datagrams_rx + 1;
  max_seen_seq = (if not s.any_seen || ltb s.max_seen_seq seq then seq else s.max_seen_seq);
  any_seen = true;
  nack_state = erase (seq, idx) s.nack_state;
}

-- A whole message in one frame, in its turn.
pub take_whole : RxState → List ℕ → RxState
unfolding push_chunk drain_pending
take_whole s payload =
    drain_pending (record (push_chunk s payload) { next_rx_seq = u32 (s.next_rx_seq + 1) })

-- A fragment of a message to come, or of one with several.
pub take_fragment : RxState → ℕ → ℕ → ℕ → List ℕ → RxState
unfolding store sized drain_pending
take_fragment s seq idx total payload = drain_pending (record s {
  pending =
      insert seq (store (sized (partial_or (lookup seq s.pending)) total) idx payload) s.pending;
})

-- `handle_data_` from the lock on; `payload` is decrypted.
pub accept : RxState → ℕ → ℕ → ℕ → List ℕ → RxState
unfolding note_frame take_whole take_fragment
accept s seq idx total payload =
    let noted = note_frame s seq idx in
    if ltb seq s.next_rx_seq
    then noted
    else if (total == 1) && (seq == s.next_rx_seq)
    then take_whole noted payload
    else take_fragment noted seq idx total payload

-- The copying loop of `recv`: the bytes, and the chunks that are left. `none`: it would read the
-- front of an empty queue.
pub copy_out : List Chunk → ℕ → Option (List ℕ × List Chunk)
copy_out chunks zero = some ([], chunks)
copy_out [] (suc n) = none
copy_out (c ∷ chunks) (suc n) =
    let avail = length c.bytes - c.offset in
    let took = if ltb (suc n) avail then suc n else avail in
    let out = take took (drop c.offset c.bytes) in
    let rest : Option (List ℕ × List Chunk) = elim (copy_out chunks (suc n - took)) [
      | none ↦ none
      | some (more, left) ↦ some (out ++ more, left)
    ] in
    if c.offset + took == length c.bytes
    then rest
    else some (out, record c { offset = c.offset + took } ∷ chunks)

-- What a call of `recv` does at a state: it throws on a poisoned pipe, blocks while too few bytes
-- are queued, and else takes `len` bytes.
pub data Received : Type 0 where
  poisoned_error : Received
  blocks : Received
  fault : Received
  bytes : List ℕ → RxState → Received

pub recv : RxState → ℕ → Received
unfolding copy_out
recv s len =
    let copied : Received = elim (copy_out s.rx len) [
      | none ↦ fault
      | some (out, left) ↦ bytes out (record s { rx = left; rx_bytes = s.rx_bytes - len })
    ] in
    if s.poisoned then poisoned_error else if leb len s.rx_bytes then copied else blocks

-- `mark_recv_poisoned_`
pub mark_poisoned : RxState → RxState
mark_poisoned s = record s { poisoned = true }
