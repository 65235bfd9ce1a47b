-- ===== src/Tdma.antt =====
-- code/src/net/tdma_scheduler.{h,cpp}: the schedule, the scheduler's state and its operations.
-- Party ids are the non-negative ones. Times are nanoseconds as `uint64_t`; the products and sums
-- that the code computes in `uint64_t` wrap here too. The shared clock is a parameter: each call of
-- `now_ns` is a number that the caller of the model supplies. `sleep_for` changes nothing but the
-- clock, so it shows only in the next reading.
pub mod Slots
pub mod Search
pub mod Decide
pub mod Wait
pub mod Return
pub mod Stats
pub mod Build
mod Tests
use qysnc_submission.Common.{
  ℕ, zero, suc, ◌+◌, ◌-◌, ◌*◌, ◌/◌, ◌%◌, ◌^◌, Bool, true, false, not, ◌&&◌, ◌||◌, List, [], ◌∷◌,
  Option, none, some, ltb, ◌==◌, if◌then◌else◌, length, get_or, set, replicate, u32, u64,
}

-- `TDMASchedule`
pub record Schedule : Type 0 where
  pub slot_ns : ℕ
  pub slot_owners : List (List ℕ)

pub is_empty {ℓ} : {A : Type ℓ} → List A → Bool
is_empty [] = true
is_empty (x ∷ xs) = false

-- `TDMASchedule::ok`
pub is_ok : Schedule → Bool
unfolding is_empty
is_ok s = ltb 0 s.slot_ns && not (is_empty s.slot_owners)

-- The rows `{i}, {i + 1}, …` of the loop in `round_robin`.
pub owner_rows : ℕ → ℕ → List (List ℕ)
owner_rows i zero = []
owner_rows i (suc n) = (i ∷ []) ∷ owner_rows (suc i) n

-- `TDMASchedule::round_robin`
pub round_robin : ℕ → ℕ → Schedule
unfolding owner_rows
round_robin n slot = record { slot_ns = slot; slot_owners = owner_rows 0 n }

-- The fields of `TDMAScheduler`. `has_clock` is `ts_ && ts_->ok()`.
pub record Scheduler : Type 0 where
  pub party : ℕ
  pub sched : Schedule
  pub disabled : Bool
  pub owns : List Bool
  pub waits : ℕ
  pub ns_waited : ℕ
  pub in_slot_sends : ℕ
  pub out_of_slot_sends : ℕ
  pub boundary_spans : ℕ
  pub slot_hist : List ℕ

-- The inner loop of the constructor: is the party in this slot's row?
pub lists_party : ℕ → List ℕ → Bool
lists_party party [] = false
lists_party party (p ∷ ps) = if p == party then true else lists_party party ps

pub owned_slots : ℕ → List (List ℕ) → List Bool
unfolding lists_party
owned_slots party [] = []
owned_slots party (row ∷ rows) = lists_party party row ∷ owned_slots party rows

-- The constructor.
pub make : ℕ → Bool → Schedule → Bool → Scheduler
unfolding is_ok owned_slots
make party has_clock sched disabled =
    if is_ok sched
    then record {
      party = party;
      sched = sched;
      disabled = disabled || not has_clock;
      owns = owned_slots party sched.slot_owners;
      waits = 0;
      ns_waited = 0;
      in_slot_sends = 0;
      out_of_slot_sends = 0;
      boundary_spans = 0;
      slot_hist = replicate (length sched.slot_owners) 0;
    }
    else record {
      party = party;
      sched = sched;
      disabled = true;
      owns = [];
      waits = 0;
      ns_waited = 0;
      in_slot_sends = 0;
      out_of_slot_sends = 0;
      boundary_spans = 0;
      slot_hist = [];
    }

abbrev pub cycle_slots : Scheduler → ℕ
cycle_slots s = length s.sched.slot_owners

-- `owns_slot`; past the end it is false.
pub owns_slot : Scheduler → ℕ → Bool
owns_slot s idx = ltb idx (length s.owns) && get_or s.owns idx false

abbrev pub cycle_ns : Scheduler → ℕ
cycle_ns s = u64 (s.sched.slot_ns * cycle_slots s)

-- `slot_of`
pub slot_of : Scheduler → ℕ → ℕ
slot_of s t = u32 ((t % cycle_ns s) / s.sched.slot_ns)

abbrev pub bump : ℕ → ℕ
bump n = u64 (n + 1)

-- `mark_post`, `t_post` being what `now_ns` returns in it.
pub mark_post : Scheduler → ℕ → ℕ → Scheduler
unfolding slot_of owns_slot
mark_post s t_pre t_post =
    let s_pre = slot_of s t_pre in
    let s_post = slot_of s t_post in
    let hist = set s.slot_hist s_pre (bump (get_or s.slot_hist s_pre 0)) in
    if s.disabled
    then s
    else if owns_slot s s_pre && owns_slot s s_post && (s_pre == s_post)
    then record s { slot_hist = hist; in_slot_sends = bump s.in_slot_sends }
    else record s {
      slot_hist = hist;
      out_of_slot_sends = bump s.out_of_slot_sends;
      boundary_spans = (if s_pre == s_post then s.boundary_spans else bump s.boundary_spans);
    }

-- The search `for (k = 1; k <= size; ++k)` of `wait_for_slot`, at `k` with `left` rounds to go: the
-- distance from `pos` to the start of the first owned slot after `cur`, or 0.
pub next_owned : Scheduler → ℕ → ℕ → ℕ → ℕ → ℕ
next_owned s cur pos k zero = 0
next_owned s cur pos k (suc left) =
    let rest = next_owned s cur pos (k + 1) left in
    if get_or s.owns (u32 ((cur + k) % cycle_slots s)) false
    then u64 (u64 ((cur + k) * s.sched.slot_ns) + 2 ^ 64 - pos)
    else rest

-- What one round of the loop of `wait_for_slot` decides at the reading `now`.
pub data Decision : Type 0 where
  go : Decision
  nothing_owned : Decision
  sleep : ℕ → Decision

pub decide : Scheduler → ℕ → ℕ → Decision
unfolding next_owned owns_slot
decide s guard now =
    let pos = now % cycle_ns s in
    let cur = u32 (pos / s.sched.slot_ns) in
    let in_slot_pos = pos - cur * s.sched.slot_ns in
    let remaining = u64 (s.sched.slot_ns + 2 ^ 64 - in_slot_pos) in
    let delta = next_owned s cur pos 1 (cycle_slots s) in
    if owns_slot s cur && ltb guard remaining
    then go
    else if delta == 0
    then nothing_owned
    else sleep delta

pub note_wait : Scheduler → ℕ → Scheduler
note_wait s delta = record s { waits = bump s.waits; ns_waited = u64 (s.ns_waited + delta) }

-- The loop of `wait_for_slot` against the clock readings of its rounds. `none`: it still sleeps
-- when the readings end. The result is the state, the reading at which the loop returned, and the
-- readings that are left.
pub wait_loop : Scheduler → ℕ → List ℕ → Option (Scheduler × ℕ × List ℕ)
unfolding decide note_wait
wait_loop s guard [] = none
wait_loop s guard (now ∷ readings) = elim (decide s guard now) [
  | go ↦ some (s, now, readings)
  | nothing_owned ↦ some (s, now, readings)
  | sleep delta ↦ wait_loop (note_wait s delta) guard readings
]

-- The loop's state when it returns, and the readings after.
abbrev pub after_loop : Option (Scheduler × ℕ × List ℕ) → Option (Scheduler × List ℕ)
after_loop none = none
after_loop (some (s, now, rest)) = some (s, rest)

-- `wait_for_slot`
pub wait_for_slot : Scheduler → ℕ → List ℕ → Option (Scheduler × List ℕ)
unfolding wait_loop
wait_for_slot s guard readings =
    let waited = after_loop (wait_loop s guard readings) in
    if s.disabled then some (s, readings) else waited

pub data Marked : Type 0 where
  unscheduled : Marked
  blocked : Marked
  marked : Scheduler → ℕ → List ℕ → Marked

abbrev pub read_clock : Option (Scheduler × List ℕ) → Marked
read_clock none = blocked
read_clock (some (s, [])) = blocked
read_clock (some (s, t ∷ rest)) = marked s t rest

-- `wait_and_mark_pre`: 0 at once if scheduling is off (`unscheduled`); else it waits and reads the
-- clock again. `blocked`: the readings end before it returns.
pub wait_and_mark_pre : Scheduler → ℕ → List ℕ → Marked
unfolding wait_for_slot
wait_and_mark_pre s guard readings =
    let waited = read_clock (wait_for_slot s guard readings) in
    if s.disabled then unscheduled else waited
