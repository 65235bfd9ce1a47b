-- ===== src/Bus/Rx/Tests.antt =====
-- Runs of the receiving side, and each theorem at an input.
use qysnc_submission.Common.{
  subst, inl, inr, ℕ, zero, suc, ◌≤◌, ◌<◌, ◌≡◌, refl, false, List, [], ◌∷◌, ◌++◌, arith, length,
  take,
}
use qysnc_submission.Common.Map.{lookup, insert, erase}
use qysnc_submission.Bus.Rx.{RxState, bytes, recv, accept, fresh}
use qysnc_submission.Bus.Rx.Frags.{AllFull}
use qysnc_submission.Bus.Rx.Read.{unread}
use qysnc_submission.Bus.Rx.Stream.{IsStream, Holds, sent}
use qysnc_submission.Bus.Rx.Deliver.{accept-Holds, recv-bytes}
use qysnc_submission.Bus.Rx.Arrive.{In, accept_all, all_delivered}
use qysnc_submission.Bus.Rx.Run.{reads, Run, start, arrives, Run-Holds, read_prefix}

-- Two messages, the first in two fragments.
abbrev messages : ℕ → List (List ℕ)
messages zero = (1 ∷ 2 ∷ []) ∷ (3 ∷ []) ∷ []
messages (suc k) = (4 ∷ 5 ∷ []) ∷ []

messages-IsStream : IsStream messages 2
unfolding AllFull
messages-IsStream = record { no_wrap = omega arith; full = full; some_frag = some_frag }
  where
    full : (k : ℕ) → k < 2 → AllFull (messages k)
    full zero h = (refl, (refl, tt))
    full (suc k) h = (refl, tt)

    some_frag : (k : ℕ) → k < 2 → 0 < length (messages k)
    some_frag zero h = omega arith
    some_frag (suc k) h = omega arith

-- The second message comes first, then the first one's fragments in the wrong order, one twice.
abbrev arrived : RxState
arrived =
    accept (accept (accept (accept fresh 1 0 1 (4 ∷ 5 ∷ [])) 0 1 2 (3 ∷ [])) 0 1 2 (3 ∷ [])) 0 0 2
      (1 ∷ 2 ∷ [])

arrived-Run : Run messages 2 [] arrived
arrived-Run =
    arrives 0 0
      (arrives 0 1
        (arrives 0 1 (arrives 1 0 start (omega arith) (omega arith)) (omega arith) (omega arith))
        (omega arith) (omega arith))
      (omega arith) (omega arith)

five_queued : unread arrived.rx ≡ 1 ∷ 2 ∷ 3 ∷ 4 ∷ 5 ∷ []
unfolding accept lookup insert erase unread
five_queued = refl

arrived-Holds : Holds messages 2 [] arrived
arrived-Holds = Run-Holds messages-IsStream arrived-Run

recv-bytes_example :
    (s' : RxState) × (recv arrived 4 ≡ bytes (take 4 (unread arrived.rx)) s')
    × Holds messages 2 ([] ++ take 4 (unread arrived.rx)) s'
recv-bytes_example = recv-bytes [] arrived 4 arrived-Holds not_poisoned enough
  where
    not_poisoned : arrived.poisoned ≡ false
    not_poisoned = unfold accept lookup insert erase in refl

    enough : 4 ≤ arrived.rx_bytes
    enough = unfold accept lookup insert erase in omega arith

read_prefix_example :
    (rest : List ℕ) × (([] ++ take 3 (unread arrived.rx)) ++ rest ≡ sent messages 2)
read_prefix_example =
    read_prefix messages-IsStream
      (reads 3 arrived-Run (recv-bytes [] arrived 3 arrived-Holds not_poisoned enough).1)
  where
    not_poisoned : arrived.poisoned ≡ false
    not_poisoned = unfold accept lookup insert erase in refl

    enough : 3 ≤ arrived.rx_bytes
    enough = unfold accept lookup insert erase in omega arith

accept-Holds_example : Holds messages 2 [] (accept arrived 1 0 1 (4 ∷ 5 ∷ []))
accept-Holds_example =
    accept-Holds messages-IsStream [] arrived 1 0 (omega arith) (omega arith) arrived-Holds

-- The frames of `arrived`, as the pairs of a sequence number and an index.
abbrev shuffled : List (ℕ × ℕ)
shuffled = (1, 0) ∷ (0, 1) ∷ (0, 1) ∷ (0, 0) ∷ []

frames_ok : (f : ℕ × ℕ) → In f shuffled → (f.0 < 2) × (f.1 < length (messages f.0))
unfolding In
frames_ok f e =
    let put : (g : ℕ × ℕ)
        → g ≡ f
        → (g.0 < 2) × (g.1 < length (messages g.0))
        → (f.0 < 2) × (f.1 < length (messages f.0)) =
      λ g same h. subst (λ k. (k.0 < 2) × (k.1 < length (messages k.0))) same h in
    elim e [
      | inl same ↦ put (1, 0) same (omega arith, omega arith)
      | inr (inl same) ↦ put (0, 1) same (omega arith, omega arith)
      | inr (inr (inl same)) ↦ put (0, 1) same (omega arith, omega arith)
      | inr (inr (inr (inl same))) ↦ put (0, 0) same (omega arith, omega arith)
      | inr (inr (inr (inr none_left))) ↦ absurd none_left
    ]

all_there : (seq idx : ℕ) → seq < 2 → idx < length (messages seq) → In (seq, idx) shuffled
unfolding In
all_there zero zero lt in_msg = inr (inr (inr (inl refl)))
all_there zero (suc zero) lt in_msg = inr (inl refl)
all_there zero (suc (suc idx)) lt in_msg = absurd (omega arith)
all_there (suc zero) zero lt in_msg = inl refl
all_there (suc zero) (suc idx) lt in_msg = absurd (omega arith)
all_there (suc (suc seq)) idx lt in_msg = absurd (omega arith)

all_delivered_example : unread (accept_all messages fresh shuffled).rx ≡ sent messages 2
all_delivered_example = all_delivered messages-IsStream shuffled frames_ok all_there
