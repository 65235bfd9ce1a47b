-- ===== src/Bus/Wire/Codec.antt =====
-- What a handler reads from a datagram is what the sender wrote; the fields of a nonce can be
-- read off it.
use qysnc_submission.Common.{
  ℕ, ◌+◌, ◌*◌, ◌/◌, ◌%◌, ◌^◌, ◌<◌, ◌≡◌, refl, ap, List, ◌++◌, arith, get_or, length, drop,
}
use qysnc_submission.Bus.Wire.{Header, header_bytes, read_header, build_nonce, key_ids, header_size}

-- Every field fits its bytes.
pub record Fits (h : Header) : Type 0 where
  pub kind_fits : h.kind < 2 ^ 32
  pub seq_fits : h.seq < 2 ^ 32
  pub idx_fits : h.idx < 2 ^ 16
  pub total_fits : h.total < 2 ^ 16
  pub payload_len_fits : h.payload_len < 2 ^ 32

u32_lem :
    (n : ℕ)
    → n < 2 ^ 32
    → n % 256 + 256 * (n / 256 % 256) + 65536 * (n / 65536 % 256) + 16777216 * (n / 16777216 % 256)
      ≡ n
u32_lem n h = omega arith

u16_lem : (n : ℕ) → n < 2 ^ 16 → n % 256 + 256 * (n / 256 % 256) ≡ n
u16_lem n h = omega arith

-- A header whose fields fit reads back as it was written, whatever follows it.
pub read_header-header_bytes :
    (h : Header) (rest : List ℕ)
    → Fits h
    → (read_header (header_bytes h ++ rest) ≡ h)
      × (length (header_bytes h ++ rest) ≡ header_size + length rest)
      × (drop header_size (header_bytes h ++ rest) ≡ rest)
unfolding read_header header_bytes
read_header-header_bytes h rest f = (
  λ i. record {
    kind = u32_lem h.kind f.kind_fits i;
    sender = h.sender;
    target = h.target;
    seq = u32_lem h.seq f.seq_fits i;
    idx = u16_lem h.idx f.idx_fits i;
    total = u16_lem h.total f.total_fits i;
    payload_len = u32_lem h.payload_len f.payload_len_fits i;
  },
  omega arith,
  refl,
)

-- Where the sequence numbers fit 32 bits and the indexes fit 16, `build_nonce` gives the same nonce
-- only for the same role, sender, target, sequence number and index.
pub build_nonce_inj :
    (role sender target seq idx role' sender' target' seq' idx' : ℕ)
    → seq < 2 ^ 32
    → seq' < 2 ^ 32
    → idx < 2 ^ 16
    → idx' < 2 ^ 16
    → build_nonce role sender target seq idx ≡ build_nonce role' sender' target' seq' idx'
    → (role ≡ role') × (sender ≡ sender') × (target ≡ target') × (seq ≡ seq') × (idx ≡ idx')
unfolding build_nonce
build_nonce_inj role sender target seq idx role' sender' target' seq' idx' hs hs' hi hi' e =
    (at 0, at 1, at 2, omega (arith, at 4, at 5, at 6, at 7), omega (arith, at 8, at 9))
  where
    at :
        (i : ℕ)
        → get_or (build_nonce role sender target seq idx) i 0
          ≡ get_or (build_nonce role' sender' target' seq' idx') i 0
    at i = ap (λ x. get_or x i 0) e

-- Both ends of a pipe hash the same text, so they derive the same key.
pub key_ids_comm : (i j : ℕ) → key_ids i j ≡ key_ids j i
unfolding key_ids
key_ids_comm i j = ground arith
