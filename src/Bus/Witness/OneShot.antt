-- ===== src/Bus/Witness/OneShot.antt =====
-- A witness asks only for what it has not seen, and for each number once.
use native.Mathlib.Nat.{mod-eq_of_lt}
use qysnc_submission.Common.{
  ℕ, zero, suc, ◌+◌, ◌-◌, ◌^◌, ◌≤◌, ◌<◌, ◌≡◌, refl, sym, ◌∙◌, subst, ap, ◌⊎◌, inl, inr, true, false,
  ◌||◌, List, [], ◌∷◌, ◌++◌, ◌==◌, if◌then◌else◌, u32, arith, Bool-cases, ==_iff, ==_refl,
}
use qysnc_submission.Bus.Tx.{contains, remove}
use qysnc_submission.Bus.Witness.{
  WitnessState, unseen, advance, witness_observe, walk, witness_drain,
}

contains-remove :
    (ms : List ℕ) (m n : ℕ) → contains (remove ms m) n ≡ (if m == n then false else contains ms n)
unfolding contains remove
contains-remove [] m n = ground arith
contains-remove (k ∷ ms) m n = ground (arith, contains-remove ms m n)

contains-append :
    (ms ns : List ℕ) (n : ℕ) → contains (ms ++ ns) n ≡ (contains ms n || contains ns n)
unfolding contains
contains-append [] ns n = refl
contains-append (m ∷ ms) ns n = ground (arith, contains-append ms ns n)

-- What a witness has seen lies below `low_walk` or is kept, and what it asked for is kept.
record Knows (limit : ℕ) (observed asked : List ℕ) (ws : WitnessState) : Type 0 where
  kept : (n : ℕ) → contains observed n ≡ true → (n < ws.low_walk) ⊎ (contains ws.seen n ≡ true)
  small : (n : ℕ) → contains ws.seen n ≡ true → n < limit
  once : (n : ℕ) → contains asked n ≡ true → contains ws.nacked n ≡ true

advance-Knows :
    (fuel limit : ℕ) (observed asked : List ℕ) (ws : WitnessState)
    → limit < 2 ^ 32
    → Knows limit observed asked ws
    → Knows limit observed asked (advance fuel ws)
unfolding advance
advance-Knows zero limit observed asked ws few h = h
advance-Knows (suc fuel) limit observed asked ws few h =
    elim (Bool-cases (contains ws.seen ws.low_walk)) [
      | inr off ↦ rw (off, advance) h
      | inl on ↦
          rw (on, advance)
            (advance-Knows fuel limit observed asked _ few (record {
              kept = λ n e. moved on n (h.kept n e);
              small = λ n e. h.small n (ground (arith, contains-remove ws.seen ws.low_walk n));
              once = h.once;
            }))
    ]
  where
    next : contains ws.seen ws.low_walk ≡ true → u32 (ws.low_walk + 1) ≡ ws.low_walk + 1
    next on = mod-eq_of_lt (omega (arith, h.small ws.low_walk on))

    moved :
        contains ws.seen ws.low_walk ≡ true
        → (n : ℕ) → (n < ws.low_walk) ⊎ (contains ws.seen n ≡ true)
        → (n < u32 (ws.low_walk + 1)) ⊎ (contains (remove ws.seen ws.low_walk) n ≡ true)
    moved on n (inl below) = inl (omega (arith, next on))
    moved on n (inr seen) = elim (Bool-cases (ws.low_walk == n)) [
      | inl same ↦ inl (ground (arith, next on))
      | inr other ↦ inr (contains-remove ws.seen ws.low_walk n ∙ rw other seen)
    ]

-- The numbers that a walk asks for were neither seen nor asked for.
walk-new :
    (left s : ℕ) (ws : WitnessState) (n : ℕ)
    → contains (walk left s ws).1 n ≡ true
    → (s ≤ n) × (contains ws.seen n ≡ false) × (contains ws.nacked n ≡ false)
unfolding walk contains
walk-new zero s ws n e = absurd (ground arith)
walk-new (suc left) s ws n e = elim (Bool-cases (contains ws.seen s || contains ws.nacked s)) [
  | inl old ↦
      let (le, unseen_n, new_n) = walk-new left (s + 1) ws n (simp old at e) in
      (omega arith, unseen_n, new_n)
  | inr new ↦
      let found : ((s == n)
            || contains (walk left (s + 1) (record ws { nacked = s ∷ ws.nacked })).1 n)
          ≡ true =
        simp new at e in
      elim (Bool-cases (s == n)) [
        | inl same ↦
            let here : s ≡ n = (==_iff s n).0 same in
            (
              omega arith,
              ap (contains ws.seen) (sym here) ∙ ground arith,
              ap (contains ws.nacked) (sym here) ∙ ground arith,
            )
        | inr other ↦
            let (le, unseen_n, new_n) =
              walk-new left (s + 1) (record ws { nacked = s ∷ ws.nacked }) n (ground arith) in
            (omega arith, unseen_n, ground arith)
      ]
]

-- What a walk asks for is kept, and nothing that was kept is dropped.
walk-nacked :
    (left s : ℕ) (ws : WitnessState) (n : ℕ)
    → (contains ws.nacked n || contains (walk left s ws).1 n) ≡ true
    → contains (walk left s ws).0.nacked n ≡ true
unfolding walk contains
walk-nacked zero s ws n e = ground arith
walk-nacked (suc left) s ws n e = elim (Bool-cases (contains ws.seen s || contains ws.nacked s)) [
  | inl old ↦ simp old (walk-nacked left (s + 1) ws n (simp old at e))
  | inr new ↦
      let found : (contains ws.nacked n
            || ((s == n)
                || contains (walk left (s + 1) (record ws { nacked = s ∷ ws.nacked })).1 n))
          ≡ true =
        simp new at e in
      simp new (walk-nacked left (s + 1) (record ws { nacked = s ∷ ws.nacked }) n (ground arith))
]

walk-same :
    (left s : ℕ) (ws : WitnessState)
    → ((walk left s ws).0.seen ≡ ws.seen) × ((walk left s ws).0.low_walk ≡ ws.low_walk)
unfolding walk
walk-same zero s ws = (refl, refl)
walk-same (suc left) s ws = elim (Bool-cases (contains ws.seen s || contains ws.nacked s)) [
  | inl old ↦ simp old (walk-same left (s + 1) ws)
  | inr new ↦ simp new (walk-same left (s + 1) (record ws { nacked = s ∷ ws.nacked }))
]

-- A witness over time: the frames it saw and what it asked for, the last first.
pub data Watch (limit : ℕ) : List ℕ → List ℕ → WitnessState → Type 0 where
  begins : Watch limit [] [] unseen
  sees :
      {observed asked : List ℕ} {ws : WitnessState} (seq : ℕ)
      → Watch limit observed asked ws
      → seq < limit
      → Watch limit (seq ∷ observed) asked (witness_observe ws seq)
  asks :
      {observed asked : List ℕ} {ws : WitnessState}
      → Watch limit observed asked ws
      → Watch limit observed ((witness_drain ws).1 ++ asked) (witness_drain ws).0

contains-insert :
    (seen : List ℕ) (seq n : ℕ)
    → contains (if contains seen seq then seen else seq ∷ seen) n ≡ ((seq == n) || contains seen n)
unfolding contains
contains-insert seen seq n = elim (Bool-cases (seq == n)) [
  | inl same ↦
      let here : seq ≡ n = (==_iff seq n).0 same in
      subst
        (λ k.
          contains (if contains seen seq then seen else seq ∷ seen) k
          ≡ ((seq == k) || contains seen k))
        here (ground (arith, ==_refl seq))
  | inr other ↦ ground arith
]

begins-Knows : {limit : ℕ} → Knows limit [] [] unseen
unfolding contains
begins-Knows = record {
  kept = λ n e. absurd (ground arith);
  small = λ n e. absurd (ground arith);
  once = λ n e. absurd (ground arith);
}

observe-Knows :
    {limit : ℕ} {observed asked : List ℕ} (ws : WitnessState) (seq : ℕ)
    → limit < 2 ^ 32
    → seq < limit
    → Knows limit observed asked ws
    → Knows limit (seq ∷ observed) asked (witness_observe ws seq)
unfolding witness_observe contains
observe-Knows {limit} {observed} {asked} ws seq few lt h =
    advance-Knows _ limit (seq ∷ observed) asked _ few
      (record { kept = λ n e. keeps n e; small = λ n e. smalls n e; once = h.once })
  where
    keeps :
        (n : ℕ)
        → contains (seq ∷ observed) n ≡ true
        → (n < ws.low_walk)
          ⊎ (contains (if contains ws.seen seq then ws.seen else seq ∷ ws.seen) n ≡ true)
    keeps n e = elim (Bool-cases (seq == n)) [
      | inl same ↦ inr (contains-insert ws.seen seq n ∙ rw same refl)
      | inr other ↦ elim (h.kept n (ground arith)) [
        | inl below ↦ inl below
        | inr seen ↦ inr (contains-insert ws.seen seq n ∙ rw (other, seen) refl)
      ]
    ]

    smalls :
        (n : ℕ)
        → contains (if contains ws.seen seq then ws.seen else seq ∷ ws.seen) n ≡ true
        → n < limit
    smalls n e =
        let cases : ((seq == n) || contains ws.seen n) ≡ true =
          sym (contains-insert ws.seen seq n) ∙ e in
        elim (Bool-cases (seq == n)) [
          | inl same ↦ ground arith
          | inr other ↦ h.small n (ground arith)
        ]

drain-Knows :
    {limit : ℕ} {observed asked : List ℕ} (ws : WitnessState)
    → Knows limit observed asked ws
    → Knows limit observed ((witness_drain ws).1 ++ asked) (witness_drain ws).0
unfolding witness_drain
drain-Knows {limit} {observed} {asked} ws h = elim (Bool-cases ws.any_seen) [
  | inr off ↦ simp off h
  | inl on ↦
      let (same_seen, same_low) = walk-same (ws.max_seen - ws.low_walk) ws.low_walk ws in
      simp on (record {
        kept = λ n e.
            subst (λ l. (n < l) ⊎ (contains walked.0.seen n ≡ true)) (sym same_low)
              (subst (λ m. (n < ws.low_walk) ⊎ (contains m n ≡ true)) (sym same_seen) (h.kept n e));
        small = λ n e. h.small n (ap (λ m. contains m n) (sym same_seen) ∙ e);
        once = λ n e. stays n (sym (contains-append walked.1 asked n) ∙ e);
      })
]
  where
    walked : WitnessState × List ℕ
    walked = walk (ws.max_seen - ws.low_walk) ws.low_walk ws

    stays :
        (n : ℕ)
        → (contains walked.1 n || contains asked n) ≡ true
        → contains walked.0.nacked n ≡ true
    stays n e =
        walk-nacked (ws.max_seen - ws.low_walk) ws.low_walk ws n
          (elim (Bool-cases (contains asked n)) [
            | inl before ↦ ground (arith, h.once n before)
            | inr fresh_n ↦ ground arith
          ])

Watch-Knows :
    {limit : ℕ} {observed asked : List ℕ} {ws : WitnessState}
    → limit < 2 ^ 32
    → Watch limit observed asked ws
    → Knows limit observed asked ws
Watch-Knows few begins = begins-Knows
Watch-Knows few (sees {ws} seq w lt) = observe-Knows ws seq few lt (Watch-Knows few w)
Watch-Knows few (asks {ws} w) = drain-Knows ws (Watch-Knows few w)

nothing_in : (n : ℕ) → contains [] n ≡ true → ⊥
unfolding contains
nothing_in n e = ground arith

-- Whatever a witness saw before and however often it asked, it asks next only for numbers that it
-- has not seen and has not asked for. Sequence numbers below 2^32 - 1.
pub one_shot :
    {limit : ℕ} {observed asked : List ℕ} {ws : WitnessState} (n : ℕ)
    → limit < 2 ^ 32
    → Watch limit observed asked ws
    → contains (witness_drain ws).1 n ≡ true
    → (contains observed n ≡ false) × (contains asked n ≡ false)
unfolding witness_drain
one_shot {limit} {observed} {asked} {ws} n few w e =
    let h = Watch-Knows few w in
    let due : contains (walk (ws.max_seen - ws.low_walk) ws.low_walk ws).1 n ≡ true =
      elim (Bool-cases ws.any_seen) [
        | inl on ↦ simp on at e
        | inr off ↦ absurd (none_due (simp off at e))
      ] in
    let (above, unseen_n, new_n) = walk-new (ws.max_seen - ws.low_walk) ws.low_walk ws n due in
    (
      elim (Bool-cases (contains observed n)) [
        | inl seen ↦
            absurd (elim (h.kept n seen) [ inl below ↦ omega arith | inr kept ↦ ground arith ])
        | inr off ↦ off
      ],
      elim (Bool-cases (contains asked n)) [
        | inl before ↦ absurd (ground (arith, h.once n before))
        | inr off ↦ off
      ],
    )
  where
    none_due : contains [] n ≡ true → ⊥
    none_due = nothing_in n
