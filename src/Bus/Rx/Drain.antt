-- ===== src/Bus/Rx/Drain.antt =====
-- The loop of `drain_pending_locked_` ends on its own, and leaves no complete message in its turn.
use qysnc_submission.Common.{
  ℕ, zero, suc, ◌≤◌, ◌≡◌, refl, sym, subst, inl, inr, false, List, [], ◌∷◌, some, ◌==◌, length,
  arith, Bool-cases, Option-cases,
}
use qysnc_submission.Common.Map.{lookup, erase, nat_eq, length-erase-lt}
use qysnc_submission.Bus.Rx.{RxState, Partial, deliver, drain, drain_pending}

unfoldable pub IsDrained : RxState → Type 0
IsDrained s =
    (p : Partial) → lookup s.next_rx_seq s.pending ≡ some p → (p.received == p.frag_total) ≡ false

deliver-pending :
    (s : RxState) (p : Partial) → (deliver s p).pending ≡ erase s.next_rx_seq s.pending
unfolding deliver
deliver-pending s p = refl

none_found : (k : ℕ) (m : List (ℕ × Partial)) {p : Partial} → length m ≤ 0 → lookup k m ≡ some p → ⊥
unfolding lookup
none_found k [] le e = ground arith
none_found k (x ∷ m) le e = omega arith

drain-IsDrained : (fuel : ℕ) (s : RxState) → length s.pending ≤ fuel → IsDrained (drain fuel s)
unfolding IsDrained drain
drain-IsDrained zero s le = λ p e. absurd (none_found s.next_rx_seq s.pending le e)
drain-IsDrained (suc fuel) s le = elim (Option-cases (lookup s.next_rx_seq s.pending)) [
  | inl gone ↦ rw (gone, drain) (λ p e. absurd (ground arith))
  | inr (q, found) ↦ elim (Bool-cases (q.received == q.frag_total)) [
    | inl full ↦
        rw (found, full, drain)
          (drain-IsDrained fuel (deliver s q) (
            subst (λ m. length m ≤ fuel) (sym (deliver-pending s q))
              (omega (arith, length-erase-lt s.next_rx_seq s.pending found))))
    | inr short ↦ rw (found, short, drain) (λ p e. ground arith)
  ]
]

-- The fuel of the model's loop is enough: when it ends, the next message is not complete.
pub drain_pending-IsDrained : (s : RxState) → IsDrained (drain_pending s)
unfolding drain_pending
drain_pending-IsDrained s = drain-IsDrained (length s.pending) s (omega arith)
