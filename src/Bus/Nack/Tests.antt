-- ===== src/Bus/Nack/Tests.antt =====
-- A message that was asked for once, one with a fragment missing and one of which nothing has come.
use qysnc_submission.Common.{◌≡◌, refl, true, [], ◌∷◌}
use qysnc_submission.Bus.Rx.{Partial, RxState, fresh}
use qysnc_submission.Bus.Nack.{NackState, drain_nack_state}

abbrev asked : NackState
asked = ((5, 0), record { attempts = 1; last_nack_ns = 10 }) ∷ []

abbrev partial : Partial
partial = record { frag_total = 2; received = 1; frags = (1 ∷ []) ∷ [] ∷ [] }

abbrev receiver : RxState
receiver = record fresh {
  next_rx_seq = 5;
  max_seen_seq = 7;
  any_seen = true;
  pending = (6, partial) ∷ [];
  nack_state = asked;
}

asks : (drain_nack_state 2 100 1000 1000 receiver).1 ≡ ((5, 0) ∷ [])
unfolding drain_nack_state
asks = refl

keeps : (drain_nack_state 2 100 1000 1000 receiver).0.nack_state ≡ (
    ((5, 0), record { attempts = 2; last_nack_ns = 1000 })
    ∷ ((6, 1), record { attempts = 0; last_nack_ns = 1000 })
    ∷ ((7, 0), record { attempts = 0; last_nack_ns = 1000 })
    ∷ [])
unfolding drain_nack_state
keeps = refl

gives_up : (drain_nack_state 1 100 1000 1000 receiver).0.poisoned ≡ true
unfolding drain_nack_state
gives_up = refl
