-- ===== src/Bus/Rx/Arrive.antt =====
-- All frames of a stream, in any order and any number: the whole stream is delivered.
use qysnc_submission.Common.{
  ℕ, ◌+◌, ◌<◌, ◌≡◌, refl, sym, ◌∙◌, subst, ap, ◌⊎◌, inl, inr, true, List, [], ◌∷◌, ltb, ◌==◌, ◌&&◌,
  length, get_or, u32, arith, Bool-cases,
}
use qysnc_submission.Common.Map.{lookup, insert, nat_eq}
use qysnc_submission.Bus.Rx.{
  RxState, fresh, accept, note_frame, push_chunk, drain_pending, take_whole, take_fragment, store,
  sized, partial_or,
}
use qysnc_submission.Bus.Rx.Read.{unread, AllIn}
use qysnc_submission.Bus.Rx.Stream.{IsStream, sent, Holds, succ-u32}
use qysnc_submission.Bus.Rx.Deliver.{whole-Holds, accept-Holds}
use qysnc_submission.Bus.Rx.Drain.{IsDrained, drain_pending-IsDrained}
use qysnc_submission.Bus.Rx.Complete.{Has, all_arrived}
use qysnc_submission.Bus.Rx.Keep.{drain-Has, take_fragment-Has, push_chunk-pending}

-- A frame is in a list of frames.
unfoldable pub In : ℕ × ℕ → List (ℕ × ℕ) → Type 0
In f [] = ⊥
In f (g ∷ gs) = (g ≡ f) ⊎ In f gs

module _ {msgs : ℕ → List (List ℕ)} {limit : ℕ} (st : IsStream msgs limit) where
  note_frame-Has : (s : RxState) (seq idx a b : ℕ) → Has s a b → Has (note_frame s seq idx) a b
  unfolding Has note_frame
  note_frame-Has s seq idx a b h = h

  note_frame-Holds :
      {consumed : List ℕ} (s : RxState) (seq idx : ℕ)
      → Holds msgs limit consumed s
      → Holds msgs limit consumed (note_frame s seq idx)
  unfolding note_frame
  note_frame-Holds s seq idx h = record {
    bound = h.bound;
    in_order = h.in_order;
    queued = h.queued;
    inside = h.inside;
    parts = h.parts;
  }

  -- The next message moves on: what was there stays, and the message's fragments are there.
  next-Has :
      (s : RxState) (m : List ℕ) (a b : ℕ)
      → s.next_rx_seq < limit
      → Has s a b ⊎ (a ≡ s.next_rx_seq)
      → Has (record (push_chunk s m) { next_rx_seq = u32 (s.next_rx_seq + 1) }) a b
  unfolding Has
  next-Has s m a b lt (inl (inl below)) = inl (omega (arith, succ-u32 st s.next_rx_seq lt))
  next-Has s m a b lt (inl (inr (p, there, full))) =
      inr (p, ap (lookup a) (push_chunk-pending s m) ∙ there, full)
  next-Has s m a b lt (inr here) = inl (omega (arith, succ-u32 st s.next_rx_seq lt))

  take_whole-Has :
      {consumed : List ℕ} (s : RxState) (idx a b : ℕ)
      → s.next_rx_seq < limit
      → idx < 1
      → length (msgs s.next_rx_seq) ≡ 1
      → Holds msgs limit consumed s
      → Has s a b ⊎ (a ≡ s.next_rx_seq)
      → Has (take_whole s (get_or (msgs s.next_rx_seq) idx [])) a b
  unfolding take_whole drain_pending
  take_whole-Has {consumed} s idx a b lt zero_idx one h before =
      drain-Has st _ _ a b (whole-Holds st consumed s idx lt zero_idx one h)
        (next-Has s (get_or (msgs s.next_rx_seq) idx []) a b lt before)

  accept-Has :
      {consumed : List ℕ} (s : RxState) (seq idx a b : ℕ)
      → seq < limit
      → idx < length (msgs seq)
      → Holds msgs limit consumed s
      → Has s a b ⊎ ((seq ≡ a) × (idx ≡ b))
      → Has (accept s seq idx (length (msgs seq)) (get_or (msgs seq) idx [])) a b
  unfolding accept
  accept-Has {consumed} s seq idx a b lt in_msg h before =
      elim (Bool-cases (ltb seq s.next_rx_seq)) [
        | inl late ↦ rw (late, accept) (note_frame-Has s seq idx a b (old late before))
        | inr due ↦ elim (Bool-cases ((length (msgs seq) == 1) && (seq == s.next_rx_seq))) [
          | inl whole ↦
              let one : length (msgs seq) ≡ 1 = ground arith in
              let turn : seq ≡ s.next_rx_seq = ground arith in
              rw (due, whole, accept)
                (subst (λ k. Has (take_whole (note_frame s seq idx) (get_or (msgs k) idx [])) a b)
                  (sym turn)
                  (take_whole-Has (note_frame s seq idx) idx a b (subst (λ k. k < limit) turn lt)
                    (ground arith) (ap (λ k. length (msgs k)) (sym turn) ∙ one)
                    (note_frame-Holds s seq idx h) (next turn before)))
          | inr part ↦
              rw (due, part, accept)
                (take_fragment-Has st (note_frame s seq idx) seq idx a b lt in_msg
                  (note_frame-Holds s seq idx h) (noted before))
        ]
      ]
    where
      old : ltb seq s.next_rx_seq ≡ true → Has s a b ⊎ ((seq ≡ a) × (idx ≡ b)) → Has s a b
      old late (inl has) = has
      old late (inr (ea, eb)) = unfold Has in inl (ground arith)

      next :
          seq ≡ s.next_rx_seq
          → Has s a b ⊎ ((seq ≡ a) × (idx ≡ b))
          → Has (note_frame s seq idx) a b ⊎ (a ≡ s.next_rx_seq)
      next turn (inl has) = inl (note_frame-Has s seq idx a b has)
      next turn (inr (ea, eb)) = inr (sym ea ∙ turn)

      noted :
          Has s a b ⊎ ((seq ≡ a) × (idx ≡ b))
          → Has (note_frame s seq idx) a b ⊎ ((seq ≡ a) × (idx ≡ b))
      noted (inl has) = inl (note_frame-Has s seq idx a b has)
      noted (inr e) = inr e

  note_frame-IsDrained :
      (s : RxState) (seq idx : ℕ) → IsDrained s → IsDrained (note_frame s seq idx)
  unfolding note_frame IsDrained
  note_frame-IsDrained s seq idx d = d

  whole-IsDrained : (s : RxState) (payload : List ℕ) → IsDrained (take_whole s payload)
  unfolding take_whole
  whole-IsDrained s payload =
      drain_pending-IsDrained
        (record (push_chunk s payload) { next_rx_seq = u32 (s.next_rx_seq + 1) })

  fragment-IsDrained :
      (s : RxState) (seq idx total : ℕ) (payload : List ℕ)
      → IsDrained (take_fragment s seq idx total payload)
  unfolding take_fragment
  fragment-IsDrained s seq idx total payload = drain_pending-IsDrained (record s {
    pending =
        insert seq (store (sized (partial_or (lookup seq s.pending)) total) idx payload) s.pending;
  })

  accept-IsDrained :
      (s : RxState) (seq idx total : ℕ) (payload : List ℕ)
      → IsDrained s
      → IsDrained (accept s seq idx total payload)
  unfolding accept
  accept-IsDrained s seq idx total payload d = elim (Bool-cases (ltb seq s.next_rx_seq)) [
    | inl late ↦ rw (late, accept) (note_frame-IsDrained s seq idx d)
    | inr due ↦ elim (Bool-cases ((total == 1) && (seq == s.next_rx_seq))) [
      | inl whole ↦ rw (due, whole, accept) (whole-IsDrained (note_frame s seq idx) payload)
      | inr part ↦
          rw (due, part, accept) (fragment-IsDrained (note_frame s seq idx) seq idx total payload)
    ]
  ]

-- The frames come one after the other.
unfoldable pub accept_all : (ℕ → List (List ℕ)) → RxState → List (ℕ × ℕ) → RxState
accept_all msgs s [] = s
accept_all msgs s ((seq, idx) ∷ frames) =
    accept_all msgs (accept s seq idx (length (msgs seq)) (get_or (msgs seq) idx [])) frames

module _ {msgs : ℕ → List (List ℕ)} {limit : ℕ} (st : IsStream msgs limit) where
  all_come :
      (frames : List (ℕ × ℕ)) (s : RxState)
      → Holds msgs limit [] s
      → IsDrained s
      → ((f : ℕ × ℕ) → In f frames → (f.0 < limit) × (f.1 < length (msgs f.0)))
      → Holds msgs limit [] (accept_all msgs s frames)
        × IsDrained (accept_all msgs s frames)
        × ((a b : ℕ) → Has s a b ⊎ In (a, b) frames → Has (accept_all msgs s frames) a b)
  unfolding accept_all In
  all_come [] s h d ok = (h, d, λ a b e. elim e [ inl has ↦ has | inr none_in ↦ absurd none_in ])
  all_come ((seq, idx) ∷ frames) s h d ok =
      let (lt, in_msg) = ok (seq, idx) (inl refl) in
      let (h', d', keeps) =
        all_come frames (accept s seq idx (length (msgs seq)) (get_or (msgs seq) idx []))
          (accept-Holds st [] s seq idx lt in_msg h)
          (accept-IsDrained st s seq idx (length (msgs seq)) (get_or (msgs seq) idx []) d)
          (λ f e. ok f (inr e)) in
      (
        h',
        d',
        λ a b e. elim e [
          | inl has ↦ keeps a b (inl (accept-Has st s seq idx a b lt in_msg h (inl has)))
          | inr (inl same) ↦ keeps a b (
              inl (
                accept-Has st s seq idx a b lt in_msg h
                  (inr (ap (λ f. f.0) same, ap (λ f. f.1) same))))
          | inr (inr later) ↦ keeps a b (inr later)
        ],
      )

  fresh-Holds : Holds msgs limit [] fresh
  unfolding unread AllIn sent lookup
  fresh-Holds = record {
    bound = omega arith;
    in_order = refl;
    queued = refl;
    inside = tt;
    parts = λ k p e. absurd cc;
  }

  fresh-IsDrained : IsDrained fresh
  unfolding IsDrained lookup
  fresh-IsDrained p e = absurd cc

  -- If frames of the stream come to a new receiver in any order, with repetitions, and each
  -- fragment is among them, then what is queued for `recv` is the whole stream. Each message has a
  -- fragment, all fragments have bytes, and fewer than 2^32 messages are sent.
  pub all_delivered :
      (frames : List (ℕ × ℕ))
      → ((f : ℕ × ℕ) → In f frames → (f.0 < limit) × (f.1 < length (msgs f.0)))
      → ((seq idx : ℕ) → seq < limit → idx < length (msgs seq) → In (seq, idx) frames)
      → unread (accept_all msgs fresh frames).rx ≡ sent msgs limit
  all_delivered frames ok every =
      let (h, d, has) = all_come frames fresh fresh-Holds fresh-IsDrained ok in
      h.in_order
      ∙ ap (sent msgs) (
          all_arrived st (accept_all msgs fresh frames) h d
            (λ a b lt in_msg. has a b (inr (every a b lt in_msg))))
