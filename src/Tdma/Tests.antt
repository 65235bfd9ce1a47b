-- ===== src/Tdma/Tests.antt =====
-- Runs of the scheduler, and each theorem at an input.
use qysnc_submission.Common.{
  ℕ, ◌+◌, ◌/◌, ◌%◌, ◌≤◌, ◌<◌, ◌≡◌, refl, ◌↔◌, Bool, true, false, ◌&&◌, List, [], ◌∷◌, none, some,
  arith, ◌==◌, ltb,
}
use qysnc_submission.Tdma.{
  Scheduler, marked, round_robin, make, owns_slot, decide, sleep, wait_loop, wait_and_mark_pre,
  mark_post, is_ok, note_wait,
}
use qysnc_submission.Tdma.Slots.{WellTimed, room}
use qysnc_submission.Tdma.Wait.{wait_loop_returns}
use qysnc_submission.Tdma.Return.{wait_for_slot-stuck}
use qysnc_submission.Tdma.{wait_for_slot, wait_and_mark_pre, marked}
use qysnc_submission.Tdma.Decide.{decide-sleep}
use qysnc_submission.Tdma.Stats.{sum, IsBalanced, mark_post-IsBalanced}
use qysnc_submission.Tdma.Build.{round_robin_owner, make-WellTimed}

-- Four slots of 10 ms, with party 2 in slot 2; the guard is 1 ms.
abbrev slot_len : ℕ
slot_len = 10000000

abbrev guard_len : ℕ
guard_len = 1000000

abbrev rows : List (List ℕ)
rows = (0 ∷ []) ∷ (1 ∷ []) ∷ (2 ∷ []) ∷ (3 ∷ []) ∷ []

abbrev party_two : Scheduler
party_two = record {
  party = 2;
  sched = record { slot_ns = slot_len; slot_owners = rows };
  disabled = false;
  owns = false ∷ false ∷ true ∷ false ∷ [];
  waits = 0;
  ns_waited = 0;
  in_slot_sends = 0;
  out_of_slot_sends = 0;
  boundary_spans = 0;
  slot_hist = 0 ∷ 0 ∷ 0 ∷ 0 ∷ [];
}

make-party_two : make 2 true (round_robin 4 slot_len) false ≡ party_two
unfolding make round_robin
make-party_two = refl

sleeps_to_slot_two : decide party_two guard_len 5000000 ≡ sleep 15000000
unfolding decide
sleeps_to_slot_two = refl

sleeps_past_the_guard : decide party_two guard_len 29000000 ≡ sleep 31000000
unfolding decide
sleeps_past_the_guard = refl

waits_once :
    wait_and_mark_pre party_two guard_len (5000000 ∷ 20000100 ∷ 20000200 ∷ [])
    ≡ marked (note_wait party_two 15000000) 20000200 []
unfolding wait_and_mark_pre note_wait
waits_once = refl

party_two-WellTimed : WellTimed party_two
party_two-WellTimed = omega arith

party_two-IsBalanced : IsBalanced party_two
unfolding sum
party_two-IsBalanced = omega arith

owns_two : owns_slot party_two 2 ≡ true
unfolding owns_slot
owns_two = refl

wait_for_slot-stuck_example :
    wait_for_slot party_two slot_len (5000000 ∷ 20000000 ∷ 60000000 ∷ []) ≡ none
wait_for_slot-stuck_example =
    wait_for_slot-stuck party_two slot_len (5000000 ∷ 20000000 ∷ 60000000 ∷ []) 2
      party_two-WellTimed refl owns_two (omega arith)

decide-sleep_example :
    (0 < 15000000)
    × (owns_slot party_two 2 ≡ true)
    × (room party_two 20000000 ≡ slot_len)
    × ((e : ℕ)
        → room party_two 5000000 ≤ e
        → e < 15000000
        → owns_slot party_two ((5000000 + e) / slot_len % 4) ≡ false)
decide-sleep_example =
    decide-sleep party_two party_two-WellTimed guard_len 5000000 15000000 sleeps_to_slot_two

woken :
    (d : ℕ)
    → decide party_two guard_len 5000000 ≡ sleep d
    → (5000000 + d ≤ 20000100) × (20000100 + guard_len < 5000000 + d + slot_len)
unfolding decide
woken d e = ground arith

wait_loop_returns_example :
    (s' : Scheduler) × (t : ℕ) × (left : List ℕ) × (wait_loop party_two guard_len
        (5000000 ∷ 20000100 ∷ [])
      ≡ some (s', t, left))
wait_loop_returns_example =
    wait_loop_returns party_two guard_len 5000000 20000100 [] party_two-WellTimed (omega arith)
      woken

mark_post-IsBalanced_example :
    IsBalanced (mark_post party_two 20000200 30500000)
    × ((mark_post party_two 20000200 30500000).in_slot_sends
          + (mark_post party_two 20000200 30500000).out_of_slot_sends
        ≡ 1)
mark_post-IsBalanced_example =
    mark_post-IsBalanced party_two 20000200 30500000 party_two-WellTimed party_two-IsBalanced refl
      (omega arith)

round_robin_owner_example :
    owns_slot (make 2 true (round_robin 4 slot_len) false) 1 ≡ (ltb 1 4 && (1 == 2))
round_robin_owner_example = round_robin_owner 2 4 slot_len 1 true false (omega arith)

make-WellTimed_example :
    WellTimed (make 2 true party_two.sched false)
    × IsBalanced (make 2 true party_two.sched false)
    × (((make 2 true party_two.sched false).disabled ≡ false)
        ↔ (◌≡◌ {A = Bool} false false × ◌≡◌ {A = Bool} true true))
make-WellTimed_example = make-WellTimed 2 true party_two.sched false ok (omega arith) (omega arith)
  where
    ok : is_ok party_two.sched ≡ true
    ok = unfold is_ok in refl
