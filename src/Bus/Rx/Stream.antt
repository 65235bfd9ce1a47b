-- ===== src/Bus/Rx/Stream.antt =====
-- What a receiver has of a stream of messages: the invariant, and that delivery keeps it.
use qysnc_submission.Common.{
  ℕ, zero, suc, ◌+◌, ◌^◌, ◌≤◌, ◌<◌, ◌≡◌, refl, sym, ◌∙◌, subst, ap, ap₂, inl, inr, List, [], ◌∷◌,
  ◌++◌, length, arith, append_assoc, append-nil, some, ◌==◌, u32, length-append, ==_iff, Bool-cases,
  Option-cases,
}
use native.Mathlib.Nat.{mod-eq_of_lt}
use qysnc_submission.Common.Map.{lookup, erase, nat_eq, lookup-erase}
use qysnc_submission.Bus.Rx.{Partial, RxState, concat, push_chunk, deliver, drain}
use qysnc_submission.Bus.Rx.Frags.{filled, Fits, AllFull, Fits-filled}
use qysnc_submission.Bus.Rx.Read.{unread, AllIn, unread-push, AllIn-push}

-- A stream of `limit` messages, each a list of fragments with bytes in them.
pub record IsStream (msgs : ℕ → List (List ℕ)) (limit : ℕ) : Type 0 where
  pub no_wrap : limit < 2 ^ 32
  pub full : (k : ℕ) → k < limit → AllFull (msgs k)
  pub some_frag : (k : ℕ) → k < limit → 0 < length (msgs k)

-- The bytes of the first messages.
unfoldable pub sent : (ℕ → List (List ℕ)) → ℕ → List ℕ
sent msgs zero = []
sent msgs (suc k) = sent msgs k ++ concat (msgs k)

-- What is kept of a message that is not complete.
pub record IsPartOf (ms : List (List ℕ)) (p : Partial) : Type 0 where
  pub total : p.frag_total ≡ length ms
  pub fits : Fits p.frags ms
  pub count : p.received ≡ filled p.frags

pub record Holds (msgs : ℕ → List (List ℕ)) (limit : ℕ) (consumed : List ℕ) (s : RxState)
    : Type 0 where
  pub bound : s.next_rx_seq ≤ limit
  pub in_order : consumed ++ unread s.rx ≡ sent msgs s.next_rx_seq
  pub queued : s.rx_bytes ≡ length (unread s.rx)
  pub inside : AllIn s.rx
  pub parts :
      (k : ℕ) (p : Partial) → lookup k s.pending ≡ some p → (k < limit) × IsPartOf (msgs k) p

module _ {msgs : ℕ → List (List ℕ)} {limit : ℕ} (st : IsStream msgs limit) where
  pub succ-u32 : (n : ℕ) → n < limit → u32 (n + 1) ≡ suc n
  succ-u32 n lt = mod-eq_of_lt (omega (arith, st.no_wrap)) ∙ omega arith

  -- The next message moves to the queue.
  pub push-Holds :
      (consumed : List ℕ) (s : RxState)
      → s.next_rx_seq < limit
      → Holds msgs limit consumed s
      → Holds msgs limit consumed (record (push_chunk s (concat (msgs s.next_rx_seq))) {
        next_rx_seq = u32 (s.next_rx_seq + 1);
      })
  unfolding push_chunk sent
  push-Holds consumed s lt h =
      let m = concat (msgs s.next_rx_seq) in
      subst (λ n. Holds msgs limit consumed (record (push_chunk s m) { next_rx_seq = n }))
        (sym (succ-u32 s.next_rx_seq lt)) (pushed m refl)
    where
      pushed :
          (m : List ℕ)
          → m ≡ concat (msgs s.next_rx_seq)
          → Holds msgs limit consumed (record (push_chunk s m) { next_rx_seq = suc s.next_rx_seq })
      pushed [] e = record {
        bound = lt;
        in_order =
            h.in_order
            ∙ sym (append-nil (sent msgs s.next_rx_seq))
            ∙ ap (λ x. sent msgs s.next_rx_seq ++ x) e;
        queued = h.queued;
        inside = h.inside;
        parts = h.parts;
      }
      pushed (b ∷ m) e = record {
        bound = lt;
        in_order =
            ap (λ x. consumed ++ x) (unread-push s.rx (record { bytes = b ∷ m; offset = 0 }))
            ∙ sym (append_assoc consumed (unread s.rx) (b ∷ m))
            ∙ ap₂ (◌++◌) h.in_order e;
        queued =
            ap (λ x. x + length (b ∷ m)) h.queued
            ∙ sym (length-append (unread s.rx) (b ∷ m))
            ∙ ap length (sym (unread-push s.rx (record { bytes = b ∷ m; offset = 0 })));
        inside = AllIn-push s.rx (record { bytes = b ∷ m; offset = 0 }) h.inside (omega arith);
        parts = h.parts;
      }

  pub deliver-Holds :
      (consumed : List ℕ) (s : RxState) (p : Partial)
      → Holds msgs limit consumed s
      → lookup s.next_rx_seq s.pending ≡ some p
      → p.received ≡ p.frag_total
      → Holds msgs limit consumed (deliver s p)
  unfolding deliver
  deliver-Holds consumed s p h e full =
      let (lt, part) = h.parts s.next_rx_seq p e in
      let whole : p.frags ≡ msgs s.next_rx_seq =
        Fits-filled p.frags (msgs s.next_rx_seq) part.fits (sym part.count ∙ full ∙ part.total) in
      let pushed = push-Holds consumed s lt h in
      let moved =
        subst
          (λ f.
            Holds msgs limit consumed
              (record (push_chunk s (concat f)) { next_rx_seq = u32 (s.next_rx_seq + 1) }))
          (sym whole) pushed in
      record {
        bound = moved.bound;
        in_order = moved.in_order;
        queued = moved.queued;
        inside = moved.inside;
        parts = λ k q eq. h.parts k q (kept k q eq);
      }
    where
      kept :
          (k : ℕ) (q : Partial)
          → lookup k (erase s.next_rx_seq s.pending) ≡ some q
          → lookup k s.pending ≡ some q
      kept k q eq = ground (arith, lookup-erase s.next_rx_seq k s.pending)

  pub drain-Holds :
      (fuel : ℕ) (consumed : List ℕ) (s : RxState)
      → Holds msgs limit consumed s
      → Holds msgs limit consumed (drain fuel s)
  unfolding drain
  drain-Holds zero consumed s h = h
  drain-Holds (suc fuel) consumed s h = elim (Option-cases (lookup s.next_rx_seq s.pending)) [
    | inl e ↦ rw (e, drain) h
    | inr (p, e) ↦ elim (Bool-cases (p.received == p.frag_total)) [
      | inl full ↦
          rw (e, full, drain)
            (drain-Holds fuel consumed (deliver s p)
              (deliver-Holds consumed s p h e ((==_iff p.received p.frag_total).0 full)))
      | inr short ↦ rw (e, short, drain) h
    ]
  ]
