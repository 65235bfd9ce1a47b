-- ===== src/Bus/Tx/Fragments.antt =====
-- The datagrams of one message: `send` puts out its fragments in order, whatever `sendto` answers in
-- between.
use qysnc_submission.Common.{
  ℕ, zero, suc, ◌+◌, ◌*◌, ◌≤◌, ◌<◌, ◌≡◌, refl, sym, ◌∙◌, subst, ap, inl, inr, false, List, [], ◌∷◌,
  ◌++◌, length, take, drop, arith, append-nil, append_assoc, take-append-drop, length-drop, lt→ltb,
  le→ltb, Bool-cases,
}
use qysnc_submission.Bus.Wire.{max_payload}
use qysnc_submission.Bus.Rx.{concat, is_empty}
use qysnc_submission.Bus.Rx.Frags.{AllFull}
use qysnc_submission.Bus.Tx.{
  TxState, SendTo, sent, again, failed, Sent, returned, died, starved, poisoned_error, frag_count,
  fragment_frame, send_loop, finish, send,
}

-- The first `n` fragments of some bytes.
unfoldable pub chunks : ℕ → List ℕ → List (List ℕ)
chunks zero bytes = []
chunks (suc n) bytes = take max_payload bytes ∷ chunks n (drop max_payload bytes)

length-chunks : (n : ℕ) (bytes : List ℕ) → length (chunks n bytes) ≡ n
unfolding chunks
length-chunks zero bytes = refl
length-chunks (suc n) bytes = ap suc (length-chunks n (drop max_payload bytes))

concat-chunks :
    (n : ℕ) (bytes : List ℕ) → length bytes ≤ n * max_payload → concat (chunks n bytes) ≡ bytes
unfolding chunks
concat-chunks zero [] h = refl
concat-chunks zero (b ∷ bytes) h = absurd (omega arith)
concat-chunks (suc n) bytes h =
    ap (λ x. take max_payload bytes ++ x)
      (concat-chunks n (drop max_payload bytes) (omega (arith, length-drop max_payload bytes)))
    ∙ take-append-drop max_payload bytes

take_some : (bytes : List ℕ) → 0 < length bytes → is_empty (take max_payload bytes) ≡ false
take_some [] h = absurd (omega arith)
take_some (b ∷ bytes) h = refl

chunks-AllFull :
    (n : ℕ) (bytes : List ℕ)
    → n * max_payload < length bytes + max_payload
    → AllFull (chunks n bytes)
unfolding chunks AllFull
chunks-AllFull zero bytes h = tt
chunks-AllFull (suc n) bytes h = (
  take_some bytes (omega arith),
  chunks-AllFull n (drop max_payload bytes) (omega (arith, length-drop max_payload bytes)),
)

-- The number of fragments is what the bytes need.
frag_count-bounds :
    (len : ℕ)
    → 0 < len
    → len ≤ 65535 * max_payload
    → (len ≤ frag_count len * max_payload)
      × (frag_count len * max_payload < len + max_payload)
      × (frag_count len ≤ 65535)
unfolding frag_count
frag_count-bounds len pos small = ground arith

returned-out :
    {s s' : TxState} {out out' : List (List ℕ)} → returned s out ≡ returned s' out' → out' ≡ out
returned-out e = cc

starved-out : {s s' : TxState} {out out' : List (List ℕ)} → starved s out ≡ returned s' out' → ⊥
starved-out e = cc

died-out : {s s' : TxState} {out out' : List (List ℕ)} → died s out ≡ returned s' out' → ⊥
died-out e = cc

thrown-out : {s' : TxState} {out' : List (List ℕ)} → poisoned_error ≡ returned s' out' → ⊥
thrown-out e = cc

module _ (self target : ℕ) (crypt : List ℕ → List ℕ → List ℕ) where
  -- The datagrams of fragments, numbered from `i` on.
  unfoldable pub frames_from : ℕ → ℕ → ℕ → List (List ℕ) → List (List ℕ)
  frames_from seq total i [] = []
  frames_from seq total i (c ∷ cs) =
      fragment_frame self target crypt seq i total c ∷ frames_from seq total (i + 1) cs

  send_loop-frames :
      (answers : List SendTo) (seq total i n : ℕ) (bytes : List ℕ) (s : TxState)
      (frames : List (List ℕ)) {s' : TxState} {out : List (List ℕ)}
      → i + n ≡ total
      → send_loop self target crypt answers seq total i bytes s frames ≡ returned s' out
      → out ≡ frames ++ frames_from seq total i (chunks n bytes)
  unfolding send_loop frames_from chunks
  send_loop-frames [] seq total i zero bytes s frames {s'} {out} e r =
      let same : out ≡ frames = returned-out (simp (le→ltb i total (omega arith)) at r) in
      same ∙ sym (append-nil frames)
  send_loop-frames (answer ∷ answers) seq total i zero bytes s frames {s'} {out} e r =
      let same : out ≡ frames = returned-out (simp (le→ltb i total (omega arith)) at r) in
      same ∙ sym (append-nil frames)
  send_loop-frames [] seq total i (suc n) bytes s frames {s'} {out} e r =
      absurd (starved-out (simp (lt→ltb i total (omega arith)) at r))
  send_loop-frames (sent ∷ answers) seq total i (suc n) bytes s frames {s'} {out} e r =
      send_loop-frames answers seq total (i + 1) n (drop max_payload bytes) _ _ (omega arith)
        (simp (lt→ltb i total (omega arith)) at r)
      ∙ append_assoc frames
          (fragment_frame self target crypt seq i total (take max_payload bytes) ∷ [])
          (frames_from seq total (i + 1) (chunks n (drop max_payload bytes)))
  send_loop-frames (again ∷ answers) seq total i (suc n) bytes s frames {s'} {out} e r =
      send_loop-frames answers seq total i (suc n) bytes _ frames e
        (simp (lt→ltb i total (omega arith)) at r)
  send_loop-frames (failed ∷ answers) seq total i (suc n) bytes s frames {s'} {out} e r =
      absurd (died-out (simp (lt→ltb i total (omega arith)) at r))

  -- A `send` of at least one byte and at most 65535 fragments that returns has put out the
  -- fragments of the message in order, each once: they have bytes, they add up to the message, and
  -- their number is the one in each header.
  pub send-fragments :
      (answers : List SendTo) (s : TxState) (bytes : List ℕ) {s' : TxState} {out : List (List ℕ)}
      → 0 < length bytes
      → length bytes ≤ 65535 * max_payload
      → send self target crypt answers s bytes ≡ returned s' out
      → (cs : List (List ℕ)) × (out ≡ frames_from s.local_seq (length cs) 0 cs)
        × (concat cs ≡ bytes)
        × AllFull cs
        × (length cs ≤ 65535)
  unfolding send
  send-fragments answers s bytes {s'} {out} pos small r =
      let n = frag_count (length bytes) in
      let (enough, tight, few) = frag_count-bounds (length bytes) pos small in
      let size : length (chunks n bytes) ≡ n = length-chunks n bytes in
      let ended =
        finished (send_loop self target crypt answers s.local_seq n 0 bytes _ [])
          (simp (not_poisoned r) at r) in
      (
        chunks n bytes,
        send_loop-frames answers s.local_seq n 0 n bytes _ [] (omega arith) ended.1
            ∙ ap (λ k. frames_from s.local_seq k 0 (chunks n bytes)) (sym size),
        concat-chunks n bytes enough,
        chunks-AllFull n bytes tight,
        subst (λ k. k ≤ 65535) (sym size) few,
      )
    where
      not_poisoned : send self target crypt answers s bytes ≡ returned s' out → s.poisoned ≡ false
      not_poisoned e = elim (Bool-cases s.poisoned) [
        | inl on ↦ absurd (thrown-out (simp on at e))
        | inr off ↦ off
      ]

      finished :
          (l : Sent)
          → finish self target crypt s.local_seq (length bytes) l ≡ returned s' out
          → (s'' : TxState) × (l ≡ returned s'' out)
      finished (returned s₁ out₁) e = (s₁, ap (returned s₁) (sym (returned-out e)))
      finished (died s₁ out₁) e = absurd (died-out e)
      finished poisoned_error e = absurd (thrown-out e)
      finished (starved s₁ out₁) e = absurd (starved-out e)

-- The answers let `n` datagrams out before any other error.
unfoldable pub Lets : ℕ → List SendTo → Type 0
Lets zero answers = Unit
Lets (suc n) [] = ⊥
Lets (suc n) (sent ∷ answers) = Lets n answers
Lets (suc n) (again ∷ answers) = Lets (suc n) answers
Lets (suc n) (failed ∷ answers) = ⊥
