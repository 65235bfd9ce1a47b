-- ===== src/Bus/Wire.antt =====
-- The datagrams of the bus as bytes, in the little-endian order of the machines it runs on, and the
-- nonces of aes_ctr.h. A byte is a number below 256.
pub mod Codec
use qysnc_submission.Common.{
  ℕ, ◌+◌, ◌*◌, ◌/◌, ◌%◌, ◌^◌, List, [], ◌∷◌, ◌++◌, u8, get_or, length, drop, take, if◌then◌else◌,
  ltb,
}

abbrev pub max_payload : ℕ
max_payload = 1400

abbrev pub header_size : ℕ
header_size = 20

abbrev pub kind_data : ℕ
kind_data = 0

abbrev pub kind_nack : ℕ
kind_nack = 1

abbrev pub kind_poison : ℕ
kind_poison = 2

-- `memcpy` of a `uint16_t` and a `uint32_t` into a buffer.
abbrev pub u16_bytes : ℕ → List ℕ
u16_bytes n = n % 256 ∷ n / 256 % 256 ∷ []

abbrev pub u32_bytes : ℕ → List ℕ
u32_bytes n = n % 256 ∷ n / 256 % 256 ∷ n / 65536 % 256 ∷ n / 16777216 % 256 ∷ []

-- `buf[i]`, and `memcpy` out of a buffer at an offset.
abbrev pub byte_at : List ℕ → ℕ → ℕ
byte_at buf i = get_or buf i 0

abbrev pub read_u16 : List ℕ → ℕ → ℕ
read_u16 buf i = byte_at buf i + 256 * byte_at buf (i + 1)

abbrev pub read_u32 : List ℕ → ℕ → ℕ
read_u32 buf i =
    byte_at buf i
    + 256 * byte_at buf (i + 1)
    + 65536 * byte_at buf (i + 2)
    + 16777216 * byte_at buf (i + 3)

-- The 20 bytes of the header that every datagram has.
pub record Header : Type 0 where
  pub kind : ℕ
  pub sender : ℕ
  pub target : ℕ
  pub seq : ℕ
  pub idx : ℕ
  pub total : ℕ
  pub payload_len : ℕ

-- The `memcpy`s at the offsets 0, 4, 5, 6, 7, 8, 12, 14 and 16.
pub header_bytes : Header → List ℕ
header_bytes h =
    u32_bytes h.kind
    ++ (h.sender ∷ h.target ∷ 0 ∷ 0 ∷ [])
    ++ u32_bytes h.seq
    ++ u16_bytes h.idx
    ++ u16_bytes h.total
    ++ u32_bytes h.payload_len

-- The fields as the pump and the handlers read them.
pub read_header : List ℕ → Header
read_header buf = record {
  kind = read_u32 buf 0;
  sender = byte_at buf 4;
  target = byte_at buf 5;
  seq = read_u32 buf 8;
  idx = read_u16 buf 12;
  total = read_u16 buf 14;
  payload_len = read_u32 buf 16;
}

-- The datagram of one fragment, as `send` and `resend_fragment_` build it; `payload` is encrypted.
unfoldable pub data_frame : ℕ → ℕ → ℕ → ℕ → ℕ → List ℕ → List ℕ
unfolding header_bytes
data_frame self target seq idx total payload =
    header_bytes (record {
      kind = kind_data;
      sender = self;
      target = target;
      seq = seq;
      idx = idx;
      total = total;
      payload_len = length payload;
    })
    ++ payload

-- The 32 bytes of `send_nack_`: the header names the party that shall send again, the body the
-- gap.
pub nack_frame : ℕ → ℕ → ℕ → ℕ → ℕ → List ℕ
unfolding header_bytes
nack_frame self missing_sender missing_target seq idx =
    header_bytes (record {
      kind = kind_nack;
      sender = self;
      target = missing_sender;
      seq = 0;
      idx = 0;
      total = 0;
      payload_len = 12;
    })
    ++ (missing_sender ∷ missing_target ∷ 0 ∷ 0 ∷ [])
    ++ u32_bytes seq
    ++ u16_bytes idx
    ++ (0 ∷ 0 ∷ [])

-- `send_poison_to_target_`: the reason is cut to the payload's size.
pub poison_frame : ℕ → ℕ → List ℕ → List ℕ
unfolding header_bytes
poison_frame self target reason =
    let plen = if ltb max_payload (length reason) then max_payload else length reason in
    header_bytes (record {
      kind = kind_poison;
      sender = self;
      target = target;
      seq = 0;
      idx = 0;
      total = 0;
      payload_len = plen;
    })
    ++ take plen reason

-- `aes_ctr::build_nonce`
pub build_nonce : ℕ → ℕ → ℕ → ℕ → ℕ → List ℕ
build_nonce role sender target seq idx =
    (role ∷ sender ∷ target ∷ 0 ∷ []) ++ u32_bytes seq ++ u16_bytes idx ++ (0 ∷ 0 ∷ [])

-- The two party ids that `aes_ctr::derive_pair_key` hashes with the seed, in order.
pub key_ids : ℕ → ℕ → ℕ × ℕ
key_ids i j = (if ltb i j then i else j, if ltb i j then j else i)
