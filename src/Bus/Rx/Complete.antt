-- ===== src/Bus/Rx/Complete.antt =====
-- Nothing that arrived is lost: once each fragment of the stream has come, all of it is delivered.
use qysnc_submission.Common.{
  ℕ, suc, ◌<◌, ◌≡◌, refl, sym, ◌∙◌, subst, ◌⊎◌, inl, inr, false, List, [], ◌∷◌, some, ltb, length,
  get_or, arith, Bool-cases,
}
use qysnc_submission.Common.Map.{lookup, nat_eq}
use qysnc_submission.Bus.Rx.{RxState, Partial, is_empty}
use qysnc_submission.Bus.Rx.Frags.{filled, Fits-length}
use qysnc_submission.Bus.Rx.Stream.{IsStream, Holds}
use qysnc_submission.Bus.Rx.Drain.{IsDrained}

-- The fragment is delivered with its message, or kept for it.
unfoldable pub Has : RxState → ℕ → ℕ → Type 0
Has s seq idx =
    (seq < s.next_rx_seq)
    ⊎ ((p : Partial) × (lookup seq s.pending ≡ some p) × (is_empty (get_or p.frags idx []) ≡ false))

-- When all fragments are there, the count says so.
all_filled :
    (fs : List (List ℕ))
    → ((i : ℕ) → i < length fs → is_empty (get_or fs i []) ≡ false)
    → filled fs ≡ length fs
unfolding filled
all_filled [] h = refl
all_filled (f ∷ fs) h =
    ground (arith, h 0 (omega arith), all_filled fs (λ i lt. h (suc i) (omega arith)))

module _ {msgs : ℕ → List (List ℕ)} {limit : ℕ} (st : IsStream msgs limit) where
  -- A drained receiver that has each fragment of the next message has delivered all messages.
  pub all_arrived :
      {consumed : List ℕ} (s : RxState)
      → Holds msgs limit consumed s
      → IsDrained s
      → ((seq idx : ℕ) → seq < limit → idx < length (msgs seq) → Has s seq idx)
      → s.next_rx_seq ≡ limit
  unfolding IsDrained Has
  all_arrived s h drained has = elim (Bool-cases (ltb s.next_rx_seq limit)) [
    | inl more ↦ absurd (stuck (ground arith))
    | inr all ↦ ground (arith, h.bound)
  ]
    where
      found :
          (idx : ℕ)
          → s.next_rx_seq < limit
          → idx < length (msgs s.next_rx_seq)
          → (p : Partial) × (lookup s.next_rx_seq s.pending ≡ some p)
            × (is_empty (get_or p.frags idx []) ≡ false)
      found idx lt in_msg = elim (has s.next_rx_seq idx lt in_msg) [
        | inl below ↦ absurd (omega arith)
        | inr there ↦ there
      ]

      same :
          (p : Partial) (i : ℕ)
          → lookup s.next_rx_seq s.pending ≡ some p
          → (q : Partial) × (lookup s.next_rx_seq s.pending ≡ some q)
            × (is_empty (get_or q.frags i []) ≡ false)
          → is_empty (get_or p.frags i []) ≡ false
      same p i e (q, e', full) =
          let eq : q ≡ p = ground arith in
          subst (λ r. is_empty (get_or r.frags i []) ≡ false) eq full

      complete :
          (p : Partial) → lookup s.next_rx_seq s.pending ≡ some p → p.received ≡ p.frag_total → ⊥
      complete p e full = ground (arith, drained p e)

      stuck : s.next_rx_seq < limit → ⊥
      stuck lt =
          let (p, e, first) = found 0 lt (st.some_frag s.next_rx_seq lt) in
          let (below, part) = h.parts s.next_rx_seq p e in
          let size = Fits-length p.frags (msgs s.next_rx_seq) part.fits in
          let full : filled p.frags ≡ length p.frags =
            all_filled p.frags (λ i le. same p i e (found i lt (omega (arith, size)))) in
          complete p e (part.count ∙ full ∙ size ∙ sym part.total)
