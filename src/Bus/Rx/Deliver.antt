-- ===== src/Bus/Rx/Deliver.antt =====
-- `handle_data_` and `recv` on a stream of messages: what is read is what was sent, in order.
use qysnc_submission.Common.{
  ℕ, zero, suc, ◌+◌, ◌-◌, ◌≤◌, ◌<◌, ◌≡◌, refl, sym, ◌∙◌, subst, ap, inl, inr, true, false, List, [],
  ◌∷◌, ◌++◌, length, take, drop, replicate, arith, append_assoc, append-nil, Option, some, none,
  ltb, ◌==◌, u32, ◌&&◌, ==_iff, Bool-cases, get_or, take-nil, length-drop, take-append-drop, lt→ltb,
  ne→==, le→leb,
}
use qysnc_submission.Common.Map.{lookup, insert, nat_eq, lookup-insert}
use qysnc_submission.Bus.Rx.{
  Partial, RxState, bytes, is_empty, concat, push_chunk, partial_or, resize, sized, store,
  note_frame, take_whole, take_fragment, accept, recv, drain_pending,
}
use qysnc_submission.Bus.Rx.Frags.{
  filled, Fits, AllFull, Fits-length, Fits-set, filled-set, Fits-replicate, filled-replicate,
  AllFull-get,
}
use qysnc_submission.Bus.Rx.Read.{unread, copy_out-Copied}
use qysnc_submission.Bus.Rx.Stream.{IsStream, IsPartOf, Holds, push-Holds, drain-Holds}

module _ (ms : List (List ℕ)) (full : AllFull ms) where
  new-IsPartOf :
      IsPartOf ms (record { frag_total = length ms; received = 0; frags = resize [] (length ms) })
  new-IsPartOf = record {
    total = refl;
    fits = subst (λ fs. Fits fs ms) blank (Fits-replicate ms);
    count = sym (filled-replicate (length ms)) ∙ ap filled blank;
  }
    where
      blank : replicate (length ms) [] ≡ resize [] (length ms)
      blank =
          ap (λ k. replicate k []) (omega arith)
          ∙ ap (λ x. x ++ replicate (length ms - 0) []) (sym (take-nil (length ms)))

  pub sized-IsPartOf :
      (o : Option Partial)
      → 0 < length ms
      → ((p : Partial) → o ≡ some p → IsPartOf ms p)
      → IsPartOf ms (sized (partial_or o) (length ms))
  unfolding sized
  sized-IsPartOf none pos h = new-IsPartOf
  sized-IsPartOf (some p) pos h =
      let part = h p refl in rw (ne→== p.frag_total 0 (ground (arith, part.total)), sized) part

  store-IsPartOf :
      (p : Partial) (idx : ℕ)
      → idx < length ms
      → IsPartOf ms p
      → IsPartOf ms (store p idx (get_or ms idx []))
  unfolding store
  store-IsPartOf p idx lt part = elim (Bool-cases (is_empty (get_or p.frags idx []))) [
    | inl e ↦
        rw (in_range, e, AllFull-get ms idx full lt, store)
          (record {
            total = part.total;
            fits = Fits-set p.frags ms idx part.fits;
            count =
                ap (λ k. k + 1) part.count
                ∙ sym (
                    filled-set p.frags idx (get_or ms idx [])
                      (omega (arith, Fits-length p.frags ms part.fits)) e
                      (AllFull-get ms idx full lt));
          })
    | inr e ↦ rw (in_range, e, store) part
  ]
    where
      in_range : ltb idx p.frag_total ≡ true
      in_range = lt→ltb idx p.frag_total (omega (arith, part.total))

module _ {msgs : ℕ → List (List ℕ)} {limit : ℕ} (st : IsStream msgs limit) where
  -- The fragment merged into what is kept of its message.
  unfoldable pub merged : RxState → ℕ → ℕ → Partial
  unfolding store sized
  merged s seq idx =
      store (sized (partial_or (lookup seq s.pending)) (length (msgs seq))) idx
        (get_or (msgs seq) idx [])

  pub merge-Holds :
      (consumed : List ℕ) (s : RxState) (seq idx : ℕ)
      → seq < limit
      → idx < length (msgs seq)
      → Holds msgs limit consumed s
      → Holds msgs limit consumed (record s { pending = insert seq (merged s seq idx) s.pending })
  merge-Holds consumed s seq idx lt in_msg h = record {
    bound = h.bound;
    in_order = h.in_order;
    queued = h.queued;
    inside = h.inside;
    parts = parts (merged s seq idx) (
        unfold merged in
        store-IsPartOf (msgs seq) (st.full seq lt)
          (sized (partial_or (lookup seq s.pending)) (length (msgs seq))) idx in_msg
          (sized-IsPartOf (msgs seq) (st.full seq lt) (lookup seq s.pending) (st.some_frag seq lt)
            (λ p e. (h.parts seq p e).1)));
  }
    where
      parts :
          (m : Partial)
          → IsPartOf (msgs seq) m
          → (k : ℕ) (p : Partial) → lookup k (insert seq m s.pending) ≡ some p
          → (k < limit) × IsPartOf (msgs k) p
      parts m part k p e = elim (Bool-cases (seq == k)) [
        | inl same ↦
            let stored : m ≡ p = ground (arith, lookup-insert seq k m s.pending) in
            subst (λ j. (j < limit) × IsPartOf (msgs j) p) ((==_iff seq k).0 same)
              (lt, subst (IsPartOf (msgs seq)) stored part)
        | inr other ↦
            let older : lookup k s.pending ≡ some p =
              ground (arith, lookup-insert seq k m s.pending) in
            h.parts k p older
      ]

  pub take_fragment-drain :
      (s : RxState) (seq idx : ℕ)
      → take_fragment s seq idx (length (msgs seq)) (get_or (msgs seq) idx [])
        ≡ drain_pending (record s { pending = insert seq (merged s seq idx) s.pending })
  unfolding take_fragment merged
  take_fragment-drain s seq idx = refl

  take_fragment-Holds :
      (consumed : List ℕ) (s : RxState) (seq idx : ℕ)
      → seq < limit
      → idx < length (msgs seq)
      → Holds msgs limit consumed s
      → Holds msgs limit consumed
          (take_fragment s seq idx (length (msgs seq)) (get_or (msgs seq) idx []))
  unfolding take_fragment drain_pending merged
  take_fragment-Holds consumed s seq idx lt in_msg h =
      drain-Holds st (length (insert seq (merged s seq idx) s.pending)) consumed
        (record s { pending = insert seq (merged s seq idx) s.pending })
        (merge-Holds consumed s seq idx lt in_msg h)

  pub whole-Holds :
      (consumed : List ℕ) (s : RxState) (idx : ℕ)
      → s.next_rx_seq < limit
      → idx < 1
      → length (msgs s.next_rx_seq) ≡ 1
      → Holds msgs limit consumed s
      → Holds msgs limit consumed (record (push_chunk s (get_or (msgs s.next_rx_seq) idx [])) {
        next_rx_seq = u32 (s.next_rx_seq + 1);
      })
  whole-Holds consumed s idx lt zero_idx one h =
      subst
        (λ m.
          Holds msgs limit consumed
            (record (push_chunk s m) { next_rx_seq = u32 (s.next_rx_seq + 1) }))
        whole (push-Holds st consumed s lt h)
    where
      single : (ms : List (List ℕ)) → length ms ≡ 1 → (i : ℕ) → i < 1 → concat ms ≡ get_or ms i []
      single (m ∷ []) e zero le = append-nil m
      single [] e i le = absurd (omega arith)
      single (m ∷ k ∷ ms) e i le = absurd (omega arith)
      single (m ∷ []) e (suc i) le = absurd (omega arith)

      whole : concat (msgs s.next_rx_seq) ≡ get_or (msgs s.next_rx_seq) idx []
      whole = single (msgs s.next_rx_seq) one idx zero_idx

  take_whole-Holds :
      (consumed : List ℕ) (s : RxState) (idx : ℕ)
      → s.next_rx_seq < limit
      → idx < 1
      → length (msgs s.next_rx_seq) ≡ 1
      → Holds msgs limit consumed s
      → Holds msgs limit consumed (take_whole s (get_or (msgs s.next_rx_seq) idx []))
  unfolding take_whole drain_pending
  take_whole-Holds consumed s idx lt zero_idx one h =
      drain-Holds st _ consumed _ (whole-Holds consumed s idx lt zero_idx one h)

  -- A frame of the stream, whichever it is and whenever it comes, keeps the invariant: what was read
  -- and what is queued are the first messages, `rx_bytes` counts the bytes queued, and what is kept of a later
  -- message is part of it. Each message has a fragment, all fragments have bytes, and fewer than
  -- 2^32 messages are sent.
  pub accept-Holds :
      (consumed : List ℕ) (s : RxState) (seq idx : ℕ)
      → seq < limit
      → idx < length (msgs seq)
      → Holds msgs limit consumed s
      → Holds msgs limit consumed (accept s seq idx (length (msgs seq)) (get_or (msgs seq) idx []))
  unfolding accept note_frame
  accept-Holds consumed s seq idx lt in_msg h = elim (Bool-cases (ltb seq s.next_rx_seq)) [
    | inl late ↦ rw (late, accept) noted
    | inr due ↦ elim (Bool-cases ((length (msgs seq) == 1) && (seq == s.next_rx_seq))) [
      | inl whole ↦
          let one : length (msgs seq) ≡ 1 = ground arith in
          let turn : seq ≡ s.next_rx_seq = ground arith in
          rw (due, whole, accept)
            (subst
              (λ k.
                Holds msgs limit consumed
                  (take_whole (note_frame s seq idx) (get_or (msgs k) idx [])))
              (sym turn)
              (take_whole-Holds consumed (note_frame s seq idx) idx (omega arith) (omega arith)
                (ap (λ k. length (msgs k)) (sym turn) ∙ one) noted))
      | inr part ↦
          rw (due, part, accept)
            (take_fragment-Holds consumed (note_frame s seq idx) seq idx lt in_msg noted)
    ]
  ]
    where
      noted : Holds msgs limit consumed (note_frame s seq idx)
      noted = record {
        bound = h.bound;
        in_order = h.in_order;
        queued = h.queued;
        inside = h.inside;
        parts = h.parts;
      }

-- Where the invariant holds, a call of `recv` on a pipe that is not poisoned and has the bytes queued
-- returns the next `len` of them, leaves the others, and keeps the invariant.
pub recv-bytes :
    {msgs : ℕ → List (List ℕ)} {limit : ℕ} (consumed : List ℕ) (s : RxState) (len : ℕ)
    → Holds msgs limit consumed s
    → s.poisoned ≡ false
    → len ≤ s.rx_bytes
    → (s' : RxState) × (recv s len ≡ bytes (take len (unread s.rx)) s')
      × Holds msgs limit (consumed ++ take len (unread s.rx)) s'
unfolding recv
recv-bytes consumed s len h ok le =
    let c = copy_out-Copied s.rx len h.inside (omega (arith, h.queued)) in
    (
      record s { rx = c.left; rx_bytes = s.rx_bytes - len },
      simp (ok, le→leb len s.rx_bytes le, c.copies),
      record {
        bound = h.bound;
        in_order =
            ap (λ x. (consumed ++ take len (unread s.rx)) ++ x) c.rest
            ∙ append_assoc consumed (take len (unread s.rx)) (drop len (unread s.rx))
            ∙ ap (λ x. consumed ++ x) (take-append-drop len (unread s.rx))
            ∙ h.in_order;
        queued = omega (arith, h.queued, length-drop len (unread s.rx), ap length c.rest);
        inside = c.inside;
        parts = h.parts;
      },
    )
