-- ===== src/Bus/Rx/Read.antt =====
-- The copying loop of `recv` takes the first bytes of what is queued.
use qysnc_submission.Common.{
  ℕ, zero, suc, ◌+◌, ◌-◌, ◌≤◌, ◌<◌, ◌≡◌, refl, sym, ◌∙◌, subst, ap, inl, inr, true, List, [], ◌∷◌,
  ◌++◌, length, take, drop, arith, append_assoc, append-nil, some, ltb, ◌==◌, length-append,
  length-drop, take-append_left, take-append_right, drop-append_left, drop-append_right, drop-drop,
  take_all, ==_refl, ne→==, lt→ltb, le→ltb, Bool-cases,
}
use qysnc_submission.Bus.Rx.{Chunk, copy_out}

-- The bytes that are queued and not yet read.
unfoldable pub unread : List Chunk → List ℕ
unread [] = []
unread (c ∷ cs) = drop c.offset c.bytes ++ unread cs

unfoldable pub AllIn : List Chunk → Type 0
AllIn [] = Unit
AllIn (c ∷ cs) = (c.offset ≤ length c.bytes) × AllIn cs

pub unread-push :
    (cs : List Chunk) (c : Chunk) → unread (cs ++ (c ∷ [])) ≡ unread cs ++ drop c.offset c.bytes
unfolding unread
unread-push [] c = append-nil _
unread-push (d ∷ cs) c =
    ap (λ x. drop d.offset d.bytes ++ x) (unread-push cs c)
    ∙ sym (append_assoc (drop d.offset d.bytes) (unread cs) (drop c.offset c.bytes))

pub AllIn-push :
    (cs : List Chunk) (c : Chunk) → AllIn cs → c.offset ≤ length c.bytes → AllIn (cs ++ (c ∷ []))
unfolding AllIn
AllIn-push [] c h le = (le, tt)
AllIn-push (d ∷ cs) c (h, hs) le = (h, AllIn-push cs c hs le)

pub record Copied (chunks : List Chunk) (n : ℕ) : Type 0 where
  pub left : List Chunk
  pub copies : copy_out chunks n ≡ some (take n (unread chunks), left)
  pub rest : unread left ≡ drop n (unread chunks)
  pub inside : AllIn left

-- A chunk that holds more than is asked for stays, further on.
copy-part :
    (c : Chunk) (cs : List Chunk) (n : ℕ)
    → AllIn (c ∷ cs)
    → suc n < length c.bytes - c.offset
    → Copied (c ∷ cs) (suc n)
unfolding copy_out unread AllIn
copy-part c cs n (h, hs) lt = record {
  left = record c { offset = c.offset + suc n } ∷ cs;
  copies = simp (
    lt→ltb (suc n) (length c.bytes - c.offset) lt,
    ne→== (c.offset + suc n) (length c.bytes) (omega arith),
    take-append_left (suc n) (drop c.offset c.bytes) (unread cs) enough,
  );
  rest =
      ap (λ x. x ++ unread cs) (sym (drop-drop (suc n) c.offset c.bytes))
      ∙ sym (drop-append_left (suc n) (drop c.offset c.bytes) (unread cs) enough);
  inside = (omega arith, hs);
}
  where
    enough : suc n ≤ length (drop c.offset c.bytes)
    enough = omega (arith, length-drop c.offset c.bytes)

copy-whole :
    (c : Chunk) (cs : List Chunk) (n : ℕ)
    → AllIn (c ∷ cs)
    → length c.bytes - c.offset ≤ suc n
    → Copied cs (suc n - (length c.bytes - c.offset))
    → Copied (c ∷ cs) (suc n)
unfolding copy_out unread AllIn
copy-whole c cs n (h, hs) le r = record {
  left = r.left;
  copies = simp (
    le→ltb (suc n) (length c.bytes - c.offset) le,
    whole,
    r.copies,
    take-append_right (suc n) (drop c.offset c.bytes) (unread cs)
        (subst (λ k. k ≤ suc n) (sym size) le),
    size,
    take_all (length c.bytes - c.offset) (drop c.offset c.bytes) (omega (arith, size)),
  );
  rest =
      r.rest
      ∙ ap (λ k. drop (suc n - k) (unread cs)) (sym size)
      ∙ sym (
          drop-append_right (suc n) (drop c.offset c.bytes) (unread cs)
            (subst (λ k. k ≤ suc n) (sym size) le));
  inside = r.inside;
}
  where
    size : length (drop c.offset c.bytes) ≡ length c.bytes - c.offset
    size = length-drop c.offset c.bytes

    whole : (c.offset + (length c.bytes - c.offset) == length c.bytes) ≡ true
    whole = ap (λ x. x == length c.bytes) (omega arith) ∙ ==_refl (length c.bytes)

pub copy_out-Copied :
    (chunks : List Chunk) (n : ℕ) → AllIn chunks → n ≤ length (unread chunks) → Copied chunks n
unfolding unread AllIn
copy_out-Copied chunks zero h le =
    unfold copy_out in record { left = chunks; copies = refl; rest = refl; inside = h }
copy_out-Copied [] (suc n) h le = absurd (omega arith)
copy_out-Copied (c ∷ cs) (suc n) h le =
    elim (Bool-cases (ltb (suc n) (length c.bytes - c.offset))) [
      | inl e ↦ copy-part c cs n h (ground arith)
      | inr e ↦ copy-whole c cs n h (ground arith) (
          copy_out-Copied cs (suc n - (length c.bytes - c.offset)) h.1 (
            omega (
              arith,
              length-append (drop c.offset c.bytes) (unread cs),
              length-drop c.offset c.bytes,
              le,
            )))
    ]
