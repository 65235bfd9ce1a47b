-- ===== src/Bus/Tests.antt =====
-- Each theorem on the datagrams at an input.
use qysnc_submission.Common.{ℕ, ◌+◌, ◌≡◌, refl, [], ◌∷◌, ◌++◌, arith, length, drop}
use qysnc_submission.Bus.Wire.{Header, header_bytes, read_header, header_size}
use qysnc_submission.Bus.Wire.Codec.{Fits, read_header-header_bytes, build_nonce_inj}

abbrev header : Header
header = record { kind = 0; sender = 1; target = 2; seq = 300; idx = 4; total = 5; payload_len = 3 }

header-Fits : Fits header
header-Fits = record {
  kind_fits = omega arith;
  seq_fits = omega arith;
  idx_fits = omega arith;
  total_fits = omega arith;
  payload_len_fits = omega arith;
}

read_header-header_bytes_example :
    (read_header (header_bytes header ++ (7 ∷ 8 ∷ 9 ∷ [])) ≡ header)
    × (length (header_bytes header ++ (7 ∷ 8 ∷ 9 ∷ [])) ≡ header_size + 3)
    × (drop header_size (header_bytes header ++ (7 ∷ 8 ∷ 9 ∷ [])) ≡ 7 ∷ 8 ∷ 9 ∷ [])
read_header-header_bytes_example = read_header-header_bytes header (7 ∷ 8 ∷ 9 ∷ []) header-Fits

build_nonce_inj_example :
    (◌≡◌ {A = ℕ} 0 0)
    × (◌≡◌ {A = ℕ} 1 1)
    × (◌≡◌ {A = ℕ} 2 2)
    × (◌≡◌ {A = ℕ} 300 300)
    × (◌≡◌ {A = ℕ} 4 4)
build_nonce_inj_example =
    build_nonce_inj 0 1 2 300 4 0 1 2 300 4 (omega arith) (omega arith) (omega arith) (omega arith)
      refl
