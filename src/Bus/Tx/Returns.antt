-- ===== src/Bus/Tx/Returns.antt =====
-- `send` gets through: it returns when `sendto` lets its datagrams out.
use qysnc_submission.Common.{
  ℕ, zero, suc, ◌+◌, ◌≡◌, refl, false, List, [], ◌∷◌, length, drop, arith, lt→ltb, le→ltb,
}
use qysnc_submission.Bus.Wire.{max_payload}
use qysnc_submission.Bus.Tx.{
  TxState, SendTo, sent, again, failed, Sent, returned, frag_count, send_loop, finish, send, died,
  starved, poisoned_error,
}
use qysnc_submission.Bus.Tx.Fragments.{Lets}

-- The call returns.
Returns : Sent → Type 0
Returns (returned s out) = Unit
Returns (died s out) = ⊥
Returns poisoned_error = ⊥
Returns (starved s out) = ⊥

Returns-result :
    (l : Sent) → Returns l → (s : TxState) × (out : List (List ℕ)) × (l ≡ returned s out)
unfolding Returns
Returns-result (returned s out) h = (s, out, refl)
Returns-result (died s out) h = absurd h
Returns-result poisoned_error h = absurd h
Returns-result (starved s out) h = absurd h

module _ (self target : ℕ) (crypt : List ℕ → List ℕ → List ℕ) where
  Returns-finish :
      (seq len : ℕ) (l : Sent) → Returns l → Returns (finish self target crypt seq len l)
  Returns-finish seq len (returned s out) h = unfold finish Returns in tt
  Returns-finish seq len (died s out) h = unfold finish Returns in h
  Returns-finish seq len poisoned_error h = unfold finish Returns in h
  Returns-finish seq len (starved s out) h = unfold finish Returns in h

  send_loop-returns :
      (answers : List SendTo) (seq total i n : ℕ) (bytes : List ℕ) (s : TxState)
      (frames : List (List ℕ))
      → i + n ≡ total
      → Lets n answers
      → Returns (send_loop self target crypt answers seq total i bytes s frames)
  unfolding send_loop Lets Returns
  send_loop-returns [] seq total i zero bytes s frames e l =
      rw (le→ltb i total (omega arith), send_loop) tt
  send_loop-returns (answer ∷ answers) seq total i zero bytes s frames e l =
      rw (le→ltb i total (omega arith), send_loop) tt
  send_loop-returns [] seq total i (suc n) bytes s frames e l = absurd l
  send_loop-returns (sent ∷ answers) seq total i (suc n) bytes s frames e l =
      rw (lt→ltb i total (omega arith), send_loop)
        (send_loop-returns answers seq total (i + 1) n (drop max_payload bytes) _ _ (omega arith) l)
  send_loop-returns (again ∷ answers) seq total i (suc n) bytes s frames e l =
      rw (lt→ltb i total (omega arith), send_loop)
        (send_loop-returns answers seq total i (suc n) bytes _ frames e l)
  send_loop-returns (failed ∷ answers) seq total i (suc n) bytes s frames e l = absurd l

  -- On a pipe that is not poisoned, `send` returns when `sendto` takes one datagram for each
  -- fragment, with any number of `EAGAIN` in between and no other error before the last.
  pub send_returns :
      (answers : List SendTo) (s : TxState) (bytes : List ℕ)
      → s.poisoned ≡ false
      → Lets (frag_count (length bytes)) answers
      → (s' : TxState) × (out : List (List ℕ)) × (send self target crypt answers s bytes
          ≡ returned s' out)
  unfolding send
  send_returns answers s bytes off l = Returns-result (send self target crypt answers s bytes) (
      rw (off, send)
        (Returns-finish s.local_seq (length bytes) _ (
          send_loop-returns answers s.local_seq (frag_count (length bytes)) 0
            (frag_count (length bytes)) bytes _ [] (omega arith) l)))
