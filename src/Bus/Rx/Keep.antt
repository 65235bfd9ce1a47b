-- ===== src/Bus/Rx/Keep.antt =====
-- What has arrived stays: a fragment that is delivered or kept is so after every later step.
use qysnc_submission.Common.{
  ℕ, zero, suc, ◌<◌, ◌≡◌, refl, sym, ◌∙◌, subst, ◌⊎◌, inl, inr, false, List, [], ◌∷◌, some, ◌==◌,
  length, get_or, arith, Bool-cases, Option-cases, ==_iff, ==_refl, ne→==, get_or-set_self,
  get_or-set_ne,
}
use qysnc_submission.Common.Map.{lookup, insert, nat_eq, lookup-insert, lookup-erase}
use qysnc_submission.Bus.Rx.{
  RxState, Partial, is_empty, push_chunk, deliver, drain, drain_pending, store, sized, partial_or,
  take_fragment,
}
use qysnc_submission.Bus.Rx.Frags.{AllFull-get, Fits-length}
use qysnc_submission.Bus.Rx.Stream.{IsStream, Holds, succ-u32, deliver-Holds}
use qysnc_submission.Bus.Rx.Deliver.{merged, merge-Holds, take_fragment-drain, sized-IsPartOf}
use qysnc_submission.Bus.Rx.Complete.{Has}

pub push_chunk-pending : (s : RxState) (m : List ℕ) → (push_chunk s m).pending ≡ s.pending
unfolding push_chunk
push_chunk-pending s [] = refl
push_chunk-pending s (b ∷ m) = refl

module _ {msgs : ℕ → List (List ℕ)} {limit : ℕ} (st : IsStream msgs limit) where
  deliver-Has :
      {consumed : List ℕ} (s : RxState) (p : Partial) (seq idx : ℕ)
      → Holds msgs limit consumed s
      → lookup s.next_rx_seq s.pending ≡ some p
      → Has s seq idx
      → Has (deliver s p) seq idx
  unfolding deliver Has
  deliver-Has s p seq idx h e (inl below) =
      inl (omega (arith, succ-u32 st s.next_rx_seq (h.parts s.next_rx_seq p e).0))
  deliver-Has s p seq idx h e (inr (q, there, full)) = elim (Bool-cases (s.next_rx_seq == seq)) [
    | inl same ↦ inl (ground (arith, succ-u32 st s.next_rx_seq (h.parts s.next_rx_seq p e).0))
    | inr other ↦ inr (q, lookup-erase s.next_rx_seq seq s.pending ∙ rw other there, full)
  ]

  pub drain-Has :
      (fuel : ℕ) {consumed : List ℕ} (s : RxState) (seq idx : ℕ)
      → Holds msgs limit consumed s
      → Has s seq idx
      → Has (drain fuel s) seq idx
  unfolding drain
  drain-Has zero s seq idx h has = has
  drain-Has (suc fuel) {consumed} s seq idx h has =
      elim (Option-cases (lookup s.next_rx_seq s.pending)) [
        | inl e ↦ rw (e, drain) has
        | inr (p, e) ↦ elim (Bool-cases (p.received == p.frag_total)) [
          | inl full ↦
              rw (e, full, drain)
                (drain-Has fuel (deliver s p) seq idx
                  (deliver-Holds st consumed s p h e ((==_iff p.received p.frag_total).0 full))
                  (deliver-Has s p seq idx h e has))
          | inr short ↦ rw (e, short, drain) has
        ]
      ]

-- A fragment that is there is not replaced, and the one that comes is there afterwards.
pub store-keeps :
    (p : Partial) (idx i : ℕ) (payload : List ℕ)
    → is_empty (get_or p.frags i []) ≡ false
    → is_empty (get_or (store p idx payload).frags i []) ≡ false
unfolding store
store-keeps p idx i payload full = elim (Bool-cases (idx == i)) [
  | inl same ↦
      let here : idx ≡ i = (==_iff idx i).0 same in
      let closed : is_empty (get_or p.frags idx []) ≡ false =
        subst (λ j. is_empty (get_or p.frags j []) ≡ false) (sym here) full in
      subst (λ j. is_empty (get_or (store p idx payload).frags j []) ≡ false) here (ground arith)
  | inr other ↦ ground (arith, get_or-set_ne p.frags idx i payload [] (λ e. absurd (ground arith)))
]

pub store-puts :
    (p : Partial) (idx : ℕ) (payload : List ℕ)
    → idx < p.frag_total
    → idx < length p.frags
    → is_empty payload ≡ false
    → is_empty (get_or (store p idx payload).frags idx []) ≡ false
unfolding store
store-puts p idx payload lt in_list full =
    ground (arith, get_or-set_self p.frags idx payload [] in_list)

module _ {msgs : ℕ → List (List ℕ)} {limit : ℕ} (st : IsStream msgs limit) where
  sized-kept :
      {consumed : List ℕ} (s : RxState) (seq : ℕ) (p : Partial)
      → Holds msgs limit consumed s
      → lookup seq s.pending ≡ some p
      → sized (partial_or (lookup seq s.pending)) (length (msgs seq)) ≡ p
  unfolding sized
  sized-kept s seq p h e =
      let (lt, part) = h.parts seq p e in
      simp (e, ne→== p.frag_total 0 (ground (arith, part.total, st.some_frag seq lt)))

  merge-Has :
      {consumed : List ℕ} (s : RxState) (seq idx a b : ℕ)
      → Holds msgs limit consumed s
      → Has s a b
      → Has (record s { pending = insert seq (merged st s seq idx) s.pending }) a b
  unfolding Has merged
  merge-Has s seq idx a b h (inl below) = inl below
  merge-Has s seq idx a b h (inr (p, there, full)) = elim (Bool-cases (seq == a)) [
    | inl same ↦
        let here : seq ≡ a = (==_iff seq a).0 same in
        let old : lookup seq s.pending ≡ some p =
          subst (λ k. lookup k s.pending ≡ some p) (sym here) there in
        inr (
          merged st s seq idx,
          lookup-insert seq a (merged st s seq idx) s.pending ∙ rw same refl,
          store-keeps (sized (partial_or (lookup seq s.pending)) (length (msgs seq))) idx b
              (get_or (msgs seq) idx [])
              (subst (λ q. is_empty (get_or q.frags b []) ≡ false) (sym (sized-kept s seq p h old))
                full),
        )
    | inr other ↦
        inr (p, lookup-insert seq a (merged st s seq idx) s.pending ∙ rw other there, full)
  ]

  merge-Has_new :
      {consumed : List ℕ} (s : RxState) (seq idx : ℕ)
      → seq < limit
      → idx < length (msgs seq)
      → Holds msgs limit consumed s
      → Has (record s { pending = insert seq (merged st s seq idx) s.pending }) seq idx
  unfolding Has merged
  merge-Has_new s seq idx lt in_msg h =
      let part =
        sized-IsPartOf (msgs seq) (st.full seq lt) (lookup seq s.pending) (st.some_frag seq lt)
          (λ p e. (h.parts seq p e).1) in
      let p = sized (partial_or (lookup seq s.pending)) (length (msgs seq)) in
      inr (
        merged st s seq idx,
        lookup-insert seq seq (merged st s seq idx) s.pending ∙ rw (==_refl seq) refl,
        store-puts p idx (get_or (msgs seq) idx []) (omega (arith, part.total))
            (omega (arith, Fits-length p.frags (msgs seq) part.fits))
            (AllFull-get (msgs seq) idx (st.full seq lt) in_msg),
      )

  pub take_fragment-Has :
      {consumed : List ℕ} (s : RxState) (seq idx a b : ℕ)
      → seq < limit
      → idx < length (msgs seq)
      → Holds msgs limit consumed s
      → Has s a b ⊎ ((seq ≡ a) × (idx ≡ b))
      → Has (take_fragment s seq idx (length (msgs seq)) (get_or (msgs seq) idx [])) a b
  unfolding drain_pending
  take_fragment-Has {consumed} s seq idx a b lt in_msg h before =
      subst (λ r. Has r a b) (sym (take_fragment-drain st s seq idx))
        (drain-Has st _ _ a b (merge-Holds st consumed s seq idx lt in_msg h) (now before))
    where
      now :
          Has s a b ⊎ ((seq ≡ a) × (idx ≡ b))
          → Has (record s { pending = insert seq (merged st s seq idx) s.pending }) a b
      now (inl has) = merge-Has s seq idx a b h has
      now (inr (ea, eb)) =
          subst (λ j. Has (record s { pending = insert seq (merged st s seq idx) s.pending }) a j)
            eb
            (subst
              (λ k. Has (record s { pending = insert seq (merged st s seq idx) s.pending }) k idx)
              ea (merge-Has_new s seq idx lt in_msg h))
