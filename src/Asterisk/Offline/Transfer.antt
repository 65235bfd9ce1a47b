-- ===== src/Asterisk/Offline/Transfer.antt =====
-- code/src/asterisk/offline_evaluator.cpp: the message of `setWireMasks`, in which the trusted party
-- sends the last party the vectors that it cannot draw, those of the field and those of bits.
use qysnc_submission.Common.{
  ℕ, zero, suc, ◌+◌, ◌/◌, ◌≡◌, refl, sym, ◌∙◌, ap, ap₂, Bool, false, Option, none, some, List, [],
  ◌∷◌, ◌++◌, length, get_or, set, replicate, take, take_all, arith, length-append, append_assoc,
  append-nil,
}
use qysnc_submission.Ring.{CommRing}
use qysnc_submission.Bits.{pack, unpack}
use qysnc_submission.Bits.Pack.{unpack-pack, length-pack}
use qysnc_submission.Asterisk.Offline.Role.{Vectors}
use qysnc_submission.Asterisk.Offline.Sync.{rest_eq}

module _ {ℓ} {A : Type ℓ} where
  -- `for i: target[offset + i] = xs[i]`
  pub copy_at : ℕ → List A → List A → List A
  copy_at offset [] target = target
  copy_at offset (x ∷ xs) target = copy_at (suc offset) xs (set target offset x)

  -- A vector resized to `count`, then `for i: xs[i] = source[offset + i]`
  pub read_at : A → List A → ℕ → ℕ → List A
  read_at zero_value source offset zero = []
  read_at zero_value source offset (suc count) =
      get_or source offset zero_value ∷ read_at zero_value source (suc offset) count

  set-append : (xs ys : List A) (x y : A) → set (xs ++ (y ∷ ys)) (length xs) x ≡ xs ++ (x ∷ ys)
  set-append [] ys x y = refl
  set-append (z ∷ xs) ys x y = ap (◌∷◌ z) (set-append xs ys x y)

  get_or-append : (xs ys : List A) (y v : A) → get_or (xs ++ (y ∷ ys)) (length xs) v ≡ y
  get_or-append [] ys y v = refl
  get_or-append (x ∷ xs) ys y v = get_or-append xs ys y v

  snoc_append : (xs ys : List A) (x : A) → (xs ++ (x ∷ [])) ++ ys ≡ xs ++ (x ∷ ys)
  snoc_append xs ys x = append_assoc xs (x ∷ []) ys

  -- Copying fills the places after `before`.
  copy_at-fills :
      (offset : ℕ) (before xs ys : List A) (v : A)
      → offset ≡ length before
      → copy_at offset xs (before ++ (replicate (length xs) v ++ ys)) ≡ before ++ (xs ++ ys)
  unfolding copy_at
  copy_at-fills offset before [] ys v e = refl
  copy_at-fills offset before (x ∷ xs) ys v e =
      let rest = replicate (length xs) v ++ ys in
      ap (λ o. copy_at (suc offset) xs (set (before ++ (v ∷ rest)) o x)) e
      ∙ ap (copy_at (suc offset) xs) (set-append before rest x v ∙ sym (snoc_append before rest x))
      ∙ copy_at-fills (suc offset) (before ++ (x ∷ [])) xs ys v
          (omega (arith, length-append before (x ∷ [])))
      ∙ snoc_append before (xs ++ ys) x

  read_at-append :
      (v : A) (offset : ℕ) (before xs after : List A)
      → offset ≡ length before
      → read_at v (before ++ (xs ++ after)) offset (length xs) ≡ xs
  unfolding read_at
  read_at-append v offset before [] after e = refl
  read_at-append v offset before (x ∷ xs) after e =
      ap₂ ◌∷◌
        (ap (λ o. get_or (before ++ (x ∷ (xs ++ after))) o v) e
          ∙ get_or-append before (xs ++ after) x v)
        (ap (λ source. read_at v source (suc offset) (length xs))
            (sym (snoc_append before (xs ++ after) x))
          ∙ read_at-append v (suc offset) (before ++ (x ∷ [])) xs after
              (omega (arith, length-append before (x ∷ []))))

  -- The vector that the trusted party sends, with place for all of `v`.
  pub gather_vectors : A → Vectors A → List A
  unfolding copy_at
  gather_vectors zero_value v =
      let sh_num = length v.rand_sh in
      let sec_num = length v.rand_sh_sec in
      let target = replicate (sh_num + sec_num + length v.rand_sh_party) zero_value in
      copy_at (sec_num + sh_num) v.rand_sh_party
        (copy_at sh_num v.rand_sh_sec (copy_at 0 v.rand_sh target))

  -- What the last party makes of it.
  pub split_vectors : A → List A → ℕ → ℕ → ℕ → Vectors A
  unfolding read_at
  split_vectors zero_value source sh_num sec_num party_num = record {
    rand_sh = read_at zero_value source 0 sh_num;
    rand_sh_sec = read_at zero_value source sh_num sec_num;
    rand_sh_party = read_at zero_value source (sh_num + sec_num) party_num;
  }

  replicate-add : (m n : ℕ) (v : A) → replicate (m + n) v ≡ replicate m v ++ replicate n v
  replicate-add zero n v = ap (λ k. replicate k v) {y = n} (omega arith)
  replicate-add (suc m) n v =
      ap (λ k. replicate k v) {y = suc (m + n)} (omega arith) ∙ ap (◌∷◌ v) (replicate-add m n v)

  gather_vectors-append :
      (zero_value : A) (v : Vectors A)
      → gather_vectors zero_value v ≡ v.rand_sh ++ (v.rand_sh_sec ++ v.rand_sh_party)
  unfolding gather_vectors
  gather_vectors-append zero_value v =
      let a = v.rand_sh in
      let b = v.rand_sh_sec in
      let c = v.rand_sh_party in
      let gap : ℕ → List A = λ n. replicate n zero_value in
      let split : gap (length a + length b + length c)
          ≡ gap (length a) ++ (gap (length b) ++ gap (length c)) =
        replicate-add (length a + length b) (length c) zero_value
        ∙ ap (λ xs. xs ++ gap (length c)) (replicate-add (length a) (length b) zero_value)
        ∙ append_assoc (gap (length a)) (gap (length b)) (gap (length c)) in
      let after_c : copy_at (length b + length a) c (a ++ (b ++ gap (length c))) ≡ a ++ (b ++ c) =
        ap (copy_at (length b + length a) c) (
          sym (append_assoc a b (gap (length c)))
          ∙ ap (λ xs. (a ++ b) ++ xs) (sym (append-nil (gap (length c)))))
        ∙ copy_at-fills (length b + length a) (a ++ b) c [] zero_value
            (omega (arith, length-append a b))
        ∙ append_assoc a b (c ++ [])
        ∙ ap (λ xs. a ++ (b ++ xs)) (append-nil c) in
      ap (λ xs. copy_at (length b + length a) c (copy_at (length a) b (copy_at 0 a xs))) split
      ∙ ap (λ xs. copy_at (length b + length a) c (copy_at (length a) b xs))
          (copy_at-fills 0 [] a (gap (length b) ++ gap (length c)) zero_value refl)
      ∙ ap (copy_at (length b + length a) c)
          (copy_at-fills (length a) a b (gap (length c)) zero_value refl)
      ∙ after_c

  pub split_vectors-gather_vectors :
      (zero_value : A) (v : Vectors A)
      → split_vectors zero_value
          (gather_vectors zero_value v)
          (length v.rand_sh)
          (length v.rand_sh_sec)
          (length v.rand_sh_party)
        ≡ v
  unfolding split_vectors
  split_vectors-gather_vectors zero_value v =
      let a = v.rand_sh in
      let b = v.rand_sh_sec in
      let c = v.rand_sh_party in
      let third : read_at zero_value (a ++ (b ++ c)) (length a + length b) (length c) ≡ c =
        ap (λ xs. read_at zero_value xs (length a + length b) (length c))
          (sym (append_assoc a b c) ∙ ap (λ xs. (a ++ b) ++ xs) (sym (append-nil c)))
        ∙ read_at-append zero_value (length a + length b) (a ++ b) c []
            (omega (arith, length-append a b)) in
      let joined = gather_vectors-append zero_value v in
      ap (λ source. split_vectors zero_value source (length a) (length b) (length c)) joined
      ∙ rest_eq (split_vectors zero_value (a ++ (b ++ c)) (length a) (length b) (length c)) a b c
          (read_at-append zero_value 0 [] a (b ++ c) refl)
          (read_at-append zero_value (length a) a b c refl) third

  length-gather_vectors :
      (zero_value : A) (v : Vectors A)
      → length (gather_vectors zero_value v)
        ≡ length v.rand_sh + length v.rand_sh_sec + length v.rand_sh_party
  length-gather_vectors zero_value v =
      ap length (gather_vectors-append zero_value v)
      ∙ omega (
        arith,
        length-append v.rand_sh (v.rand_sh_sec ++ v.rand_sh_party),
        length-append v.rand_sh_sec v.rand_sh_party,
      )

-- What goes over the network to the last party: the eight lengths, the field's elements, the bits
-- packed to bytes.
pub record Message {ℓ} (R : Type ℓ) : Type ℓ where
  pub lengths : List ℕ
  pub arith_comm : List R
  pub net_data : List ℕ

module _ {ℓ} {R : Type ℓ} ⦃r : CommRing R⦄ where
  -- The trusted party's half of `setWireMasks`.
  pub send_masks : Vectors R → Vectors Bool → Message R
  unfolding gather_vectors
  send_masks v b =
      let arith_comm = length v.rand_sh + length v.rand_sh_sec + length v.rand_sh_party in
      let bool_comm = length b.rand_sh + length b.rand_sh_sec + length b.rand_sh_party in
      record {
        lengths =
            arith_comm
            ∷ length v.rand_sh
            ∷ length v.rand_sh_sec
            ∷ length v.rand_sh_party
            ∷ bool_comm
            ∷ length b.rand_sh
            ∷ length b.rand_sh_sec
            ∷ length b.rand_sh_party
            ∷ [];
        arith_comm = gather_vectors r.zero v;
        net_data = pack 8 (gather_vectors false b);
      }

  -- The last party's half. The reads take `arith_comm` elements and `(bool_comm + 7) / 8` bytes;
  -- `none` where the bytes do not hold the bits.
  pub recv_masks : Message R → Option (Vectors R × Vectors Bool)
  unfolding split_vectors
  recv_masks m =
      let at : ℕ → ℕ = λ i. get_or m.lengths i 0 in
      let arith = take (at 0) m.arith_comm in
      elim (unpack 8 (take ((at 4 + 7) / 8) m.net_data) (at 4)) [
        | none ↦ none
        | some bits ↦ some (
          split_vectors r.zero arith (at 1) (at 2) (at 3),
          split_vectors false bits (at 5) (at 6) (at 7),
        )
      ]

  -- The last party reads the vectors that the trusted party has, those of the field and those of
  -- bits.
  pub recv_masks-send_masks :
      (v : Vectors R) (b : Vectors Bool) → recv_masks (send_masks v b) ≡ some (v, b)
  unfolding recv_masks send_masks
  recv_masks-send_masks v b =
      let field = gather_vectors r.zero v in
      let bits = gather_vectors false b in
      let bytes = pack 8 bits in
      let bool_comm = length b.rand_sh + length b.rand_sh_sec + length b.rand_sh_party in
      let whole : take (length v.rand_sh + length v.rand_sh_sec + length v.rand_sh_party) field
          ≡ field =
        take_all _ field (omega (arith, length-gather_vectors r.zero v)) in
      let count : length bytes ≡ (bool_comm + 7) / 8 =
        (length-pack 8 bits (omega arith)).0
        ∙ ap (λ k. k / 8) {y = bool_comm + 7} (omega (arith, length-gather_vectors false b)) in
      let all : take ((bool_comm + 7) / 8) bytes ≡ bytes =
        take_all _ bytes (omega (arith, count)) in
      let found : unpack 8 (take ((bool_comm + 7) / 8) bytes) bool_comm ≡ some bits =
        ap₂ (unpack 8) all (sym (length-gather_vectors false b))
        ∙ unpack-pack 8 bits (omega arith) in
      rw (found, recv_masks)
        (ap some (
          ap₂ (λ x y. (x, y))
            (ap
                (λ xs.
                  split_vectors r.zero xs (length v.rand_sh) (length v.rand_sh_sec)
                    (length v.rand_sh_party))
                whole
              ∙ split_vectors-gather_vectors r.zero v)
            (split_vectors-gather_vectors false b)))
