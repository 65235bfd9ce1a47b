-- ===== src/Bus/Rx/Run.antt =====
-- A receiver over time: frames arrive in any order and number, `recv` is called in between, and the
-- pipe may be poisoned.
use qysnc_submission.Common.{
  ℕ, zero, suc, ◌≤◌, ◌<◌, ◌≡◌, refl, sym, ◌∙◌, subst, ap, false, List, [], ◌++◌, length, get_or,
  arith, leb, append-nil, append_assoc, Bool-cases, inl, inr,
}
use qysnc_submission.Bus.Rx.{RxState, bytes, fresh, accept, recv, mark_poisoned, concat}
use qysnc_submission.Common.Map.{lookup, nat_eq}
use qysnc_submission.Bus.Rx.Read.{unread, AllIn}
use qysnc_submission.Bus.Rx.Stream.{IsStream, sent, Holds}
use qysnc_submission.Bus.Rx.Deliver.{accept-Holds, recv-bytes}

-- The states after a sequence of steps, with the bytes that the calls of `recv` have returned.
pub data Run (msgs : ℕ → List (List ℕ)) (limit : ℕ) : List ℕ → RxState → Type 0 where
  start : Run msgs limit [] fresh
  arrives :
      {consumed : List ℕ} {s : RxState} (seq idx : ℕ)
      → Run msgs limit consumed s
      → seq < limit
      → idx < length (msgs seq)
      → Run msgs limit consumed (accept s seq idx (length (msgs seq)) (get_or (msgs seq) idx []))
  reads :
      {consumed out : List ℕ} {s s' : RxState} (len : ℕ)
      → Run msgs limit consumed s
      → recv s len ≡ bytes out s'
      → Run msgs limit (consumed ++ out) s'
  breaks :
      {consumed : List ℕ} {s : RxState}
      → Run msgs limit consumed s
      → Run msgs limit consumed (mark_poisoned s)

-- When `recv` returns.
recv-returns :
    (s : RxState) (len : ℕ) {out : List ℕ} {s' : RxState}
    → recv s len ≡ bytes out s'
    → (s.poisoned ≡ false) × (len ≤ s.rx_bytes)
unfolding recv
recv-returns s len e = ground arith

bytes-inj :
    {out out' : List ℕ} {s s' : RxState} → bytes out s ≡ bytes out' s' → (out ≡ out') × (s ≡ s')
bytes-inj e = (cc, cc)

sent_mono :
    (msgs : ℕ → List (List ℕ)) (k n : ℕ)
    → k ≤ n
    → (later : List ℕ) × (sent msgs k ++ later ≡ sent msgs n)
unfolding sent
sent_mono msgs k zero le =
    ([], append-nil (sent msgs k) ∙ ap (sent msgs) {x = k} {y = 0} (omega arith))
sent_mono msgs k (suc n) le = elim (Bool-cases (leb k n)) [
  | inl below ↦
      let (later, e) = sent_mono msgs k n (ground arith) in
      (
        later ++ concat (msgs n),
        sym (append_assoc (sent msgs k) later (concat (msgs n))) ∙ ap (λ x. x ++ concat (msgs n)) e,
      )
  | inr here ↦ ([], append-nil (sent msgs k) ∙ ap (sent msgs) {x = k} {y = suc n} (ground arith))
]

module _ {msgs : ℕ → List (List ℕ)} {limit : ℕ} (st : IsStream msgs limit) where
  reads-Holds :
      {consumed out : List ℕ} {s s' : RxState} (len : ℕ)
      → Holds msgs limit consumed s
      → recv s len ≡ bytes out s'
      → Holds msgs limit (consumed ++ out) s'
  reads-Holds {consumed} {out} {s} {s'} len h e =
      let (ok, enough) = recv-returns s len e in
      let (s'', returned, held) = recv-bytes consumed s len h ok enough in
      let (same_out, same_state) = bytes-inj (sym returned ∙ e) in
      subst (λ x. Holds msgs limit (consumed ++ out) x) same_state
        (subst (λ x. Holds msgs limit (consumed ++ x) s'') same_out held)

  breaks-Holds :
      {consumed : List ℕ} {s : RxState}
      → Holds msgs limit consumed s
      → Holds msgs limit consumed (mark_poisoned s)
  unfolding mark_poisoned
  breaks-Holds h = record {
    bound = h.bound;
    in_order = h.in_order;
    queued = h.queued;
    inside = h.inside;
    parts = h.parts;
  }

  pub Run-Holds :
      {consumed : List ℕ} {s : RxState} → Run msgs limit consumed s → Holds msgs limit consumed s
  Run-Holds start =
      unfold unread AllIn sent lookup in
      record {
        bound = omega arith;
        in_order = refl;
        queued = refl;
        inside = tt;
        parts = λ k p e. absurd cc;
      }
  Run-Holds (arrives {consumed} {s} seq idx r lt in_msg) =
      accept-Holds st consumed s seq idx lt in_msg (Run-Holds r)
  Run-Holds (reads len r e) = reads-Holds len (Run-Holds r) e
  Run-Holds (breaks {consumed} {s} r) = breaks-Holds (Run-Holds r)

  -- Whatever the network loses, repeats or reorders, the bytes that `recv` has returned are the
  -- first bytes of the messages sent, in order. Each message has bytes in all its fragments, and
  -- fewer than 2^32 are sent.
  pub read_prefix :
      {consumed : List ℕ} {s : RxState}
      → Run msgs limit consumed s
      → (rest : List ℕ) × (consumed ++ rest ≡ sent msgs limit)
  read_prefix {consumed} {s} r =
      let h = Run-Holds r in
      let (later, e) = sent_mono msgs s.next_rx_seq limit h.bound in
      (
        unread s.rx ++ later,
        sym (append_assoc consumed (unread s.rx) later) ∙ ap (λ x. x ++ later) h.in_order ∙ e,
      )
