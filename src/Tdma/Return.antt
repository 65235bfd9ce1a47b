-- ===== src/Tdma/Return.antt =====
-- What `wait_for_slot` leaves when it returns, with its test of `disabled_`.
use qysnc_submission.Common.{
  ℕ, ◌≤◌, ◌≡◌, refl, sym, ◌∙◌, ap, true, false, List, [], ◌∷◌, ◌++◌, inl, inr, Option, none, some,
  arith, length, length-append, drop, get_or,
}
use qysnc_submission.Tdma.{Scheduler, owns_slot, decide, note_wait, wait_loop, wait_for_slot}
use qysnc_submission.Tdma.Slots.{WellTimed}
use qysnc_submission.Tdma.Wait.{
  Decision-cases, wait-go, wait-nothing_owned, wait-sleep, wait_loop_stuck,
}

-- The loop returns at one of the readings, and leaves those after it.
wait_loop-readings :
    (s : Scheduler) (guard : ℕ) (readings : List ℕ) {s' : Scheduler} {t : ℕ} {rest : List ℕ}
    → wait_loop s guard readings ≡ some (s', t, rest)
    → (before : List ℕ) × (readings ≡ before ++ (t ∷ rest))
unfolding wait_loop
wait_loop-readings s guard [] e = cc
wait_loop-readings s guard (now ∷ readings) {s'} {t} {rest} e =
    elim (Decision-cases (decide s guard now)) [
      | inl d ↦ ([], stops (sym (wait-go s guard now readings d) ∙ e))
      | inr (inl d) ↦ ([], stops (sym (wait-nothing_owned s guard now readings d) ∙ e))
      | inr (inr (delta, d)) ↦
          let (before, later) =
            wait_loop-readings (note_wait s delta) guard readings
              (sym (wait-sleep s guard now delta readings d) ∙ e) in
          (now ∷ before, ap (λ xs. now ∷ xs) later)
    ]
  where
    stops :
        ◌≡◌ {A = Option (Scheduler × ℕ × List ℕ)} (some (s, now, readings)) (some (s', t, rest))
        → now ∷ readings ≡ t ∷ rest
    stops p = cc

-- The element before a common end is the same.
last_before : (xs ys zs : List ℕ) (a b : ℕ) → xs ++ (a ∷ zs) ≡ ys ++ (b ∷ zs) → a ≡ b
last_before xs ys zs a b e =
    ap (λ l. get_or l 0 0)
      (sym (drop_all xs (a ∷ zs))
        ∙ ap (drop (length xs)) e
        ∙ ap (λ n. drop n (ys ++ (b ∷ zs))) same_length
        ∙ drop_all ys (b ∷ zs))
  where
    drop_all : (us vs : List ℕ) → drop (length us) (us ++ vs) ≡ vs
    drop_all [] vs = refl
    drop_all (u ∷ us) vs = drop_all us vs

    same_length : length xs ≡ length ys
    same_length = omega (arith, ap length e, length-append xs (a ∷ zs), length-append ys (b ∷ zs))

pub wait_loop-reading :
    (s : Scheduler) (guard : ℕ) (before : List ℕ) (t : ℕ) {s' : Scheduler} {u : ℕ} {rest : List ℕ}
    → wait_loop s guard (before ++ (t ∷ rest)) ≡ some (s', u, rest)
    → u ≡ t
wait_loop-reading s guard before t {s'} {u} {rest} e =
    let (before', same) = wait_loop-readings s guard (before ++ (t ∷ rest)) e in
    last_before before' before rest u t (sym same)

-- If the scheduler is `WellTimed` and enabled, the party owns a slot and the guard is a whole slot or more,
-- `wait_for_slot` does not return, whatever the clock reads and for however many readings.
pub wait_for_slot-stuck :
    (s : Scheduler) (guard : ℕ) (readings : List ℕ) (j : ℕ)
    → WellTimed s
    → s.disabled ≡ false
    → owns_slot s j ≡ true
    → s.sched.slot_ns ≤ guard
    → wait_for_slot s guard readings ≡ none
unfolding wait_for_slot
wait_for_slot-stuck s guard readings j w on o h =
    simp (on, wait_loop_stuck s guard readings j w o h) refl
