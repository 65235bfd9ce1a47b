-- ===== src/Bus/Nack.antt =====
-- code/src/io/bcast_bus.cpp: `compute_missing_locked_` and `drain_nack_state_`, which ask a sender for
-- what is missing. A list stands for the map `nack_state`, in the order of its keys.
mod Tests
use qysnc_submission.Common.{
  ℕ, zero, suc, ◌+◌, ◌-◌, ◌^◌, ◌≤◌, ◌≡◌, Bool, true, false, not, ◌&&◌, ◌||◌, ◌⊎◌, List, [], ◌∷◌,
  Option, none, some, ltb, leb, ◌==◌, if◌then◌else◌, length, get_or, u64,
}
use mathlib.Core.Logic.{Lift}
use qysnc_submission.Common.Map.{lookup, nat_eq, pair_beq}
use qysnc_submission.Bus.Rx.{Partial, NackRec, RxState, is_empty}

abbrev pub NackState : Type 0
NackState = List ((ℕ × ℕ) × NackRec)

-- The order of `std::pair`.
unfoldable pub is_before : ℕ × ℕ → ℕ × ℕ → Bool
is_before (s, i) (t, j) = ltb s t || (s == t && ltb i j)

-- `try_emplace`, with the time for a new entry.
unfoldable pub try_emplace : ℕ → ℕ × ℕ → NackState → NackState
unfolding is_before
try_emplace now key [] = (key, record { attempts = 0; last_nack_ns = now }) ∷ []
try_emplace now key ((k, e) ∷ m) =
    let rest = try_emplace now key m in
    if is_before key k
    then (key, record { attempts = 0; last_nack_ns = now }) ∷ (k, e) ∷ m
    else if pair_beq k key
    then (k, e) ∷ m
    else (k, e) ∷ rest

-- The loop over the fragments of a message of which some have arrived, from `i` on.
unfoldable pub missing_fragments : ℕ → ℕ → ℕ → ℕ → List (List ℕ) → NackState → NackState
unfolding try_emplace
missing_fragments now s zero i frags m = m
missing_fragments now s (suc count) i frags m =
    missing_fragments now s count (suc i) frags
      (if is_empty (get_or frags i []) then try_emplace now (s, i) m else m)

-- The loop over `count` sequence numbers from `s` on; of a message of which nothing has arrived the
-- first fragment is missing.
unfoldable pub missing_messages : ℕ → ℕ → ℕ → List (ℕ × Partial) → NackState → NackState
unfolding try_emplace missing_fragments lookup
missing_messages now zero s pending m = m
missing_messages now (suc count) s pending m =
    missing_messages now count (suc s) pending (elim (lookup s pending) [
      | none ↦ try_emplace now (s, 0) m
      | some part ↦
          if part.frag_total == 0 then m else missing_fragments now s part.frag_total 0 part.frags m
    ])

-- `compute_missing_locked_`; at `max_seen_seq` 2 ^ 32 - 1 the loop of the source does not end.
unfoldable pub compute_missing : ℕ → RxState → RxState
unfolding missing_messages
compute_missing now rs =
    if rs.any_seen
    then record rs {
      nack_state =
          missing_messages now (rs.max_seen_seq + 1 - rs.next_rx_seq) rs.next_rx_seq rs.pending
            rs.nack_state;
    }
    else rs

-- What an entry asks for has come.
unfoldable pub satisfied : RxState → ℕ × ℕ → Bool
unfolding lookup
satisfied rs (s, i) = if ltb s rs.next_rx_seq then true else elim (lookup s rs.pending) [
  | none ↦ false
  | some part ↦
      not (part.frag_total == 0)
      && ltb i (length part.frags)
      && not (is_empty (get_or part.frags i []))
]

-- It is time to ask: the difference of the clocks is that of `uint64_t`.
unfoldable pub is_due : ℕ → ℕ → NackRec → Bool
is_due cycle_ns now e = e.last_nack_ns == 0 || leb cycle_ns (u64 (now + 2 ^ 64 - e.last_nack_ns))

-- The loop over the entries: those that stay, what is asked for, and whether the sender is given up.
unfoldable pub nack_loop : ℕ → ℕ → ℕ → RxState → NackState → NackState × List (ℕ × ℕ) × Bool
unfolding satisfied is_due
nack_loop retx_k_recv cycle_ns now rs [] = ([], [], false)
nack_loop retx_k_recv cycle_ns now rs ((key, e) ∷ entries) =
    let rest = nack_loop retx_k_recv cycle_ns now rs entries in
    if satisfied rs key
    then rest
    else if is_due cycle_ns now e
    then if leb retx_k_recv e.attempts then ((key, e) ∷ entries, [], true) else (
      (key, record { attempts = e.attempts + 1; last_nack_ns = now }) ∷ rest.0,
      key ∷ rest.1,
      rest.2,
    )
    else ((key, e) ∷ rest.0, rest.1, rest.2)

-- What the loop leaves of the state, and what is asked for; a sender that is given up is poisoned.
unfoldable pub drain_entries : ℕ → ℕ → ℕ → RxState → RxState × List (ℕ × ℕ)
unfolding nack_loop
drain_entries retx_k_recv cycle_ns now rs =
    let loop = nack_loop retx_k_recv cycle_ns now rs rs.nack_state in
    (record rs { nack_state = loop.0; poisoned = rs.poisoned || loop.2 }, loop.1)

-- `drain_nack_state_`, with the time for what is missing and that for the loop: what it sends NACKs
-- for.
unfoldable pub drain_nack_state : ℕ → ℕ → ℕ → ℕ → RxState → RxState × List (ℕ × ℕ)
unfolding compute_missing drain_entries
drain_nack_state retx_k_recv cycle_ns now now' rs =
    if rs.poisoned
    then (rs, [])
    else drain_entries retx_k_recv cycle_ns now' (compute_missing now rs)

-- How many NACKs the entries can still lead to.
abbrev pub nacks_left : ℕ → NackState → ℕ
nacks_left k [] = 0
nacks_left k ((key, e) ∷ entries) = (k - e.attempts) + nacks_left k entries

-- Every entry waits for something.
unfoldable pub AllMissing : RxState → NackState → Type 0
AllMissing rs [] = Unit
AllMissing rs ((key, e) ∷ entries) = (satisfied rs key ≡ false) × AllMissing rs entries

module _ (retx_k_recv cycle_ns now : ℕ) (rs : RxState) where
  abbrev loop : NackState → NackState × List (ℕ × ℕ) × Bool
  unfolding nack_loop
  loop = nack_loop retx_k_recv cycle_ns now rs

module _ (retx_k_recv cycle_ns now : ℕ) (seen : RxState) where
  -- What was left and asked for keeps to the limit.
  unfoldable pub Drained : RxState × List (ℕ × ℕ) → Type 0
  unfolding AllMissing
  Drained (rs, due) =
      (length due + nacks_left retx_k_recv rs.nack_state ≤ nacks_left retx_k_recv seen.nack_state)
      × ((rs.poisoned ≡ true) ⊎ AllMissing seen rs.nack_state)
