-- ===== src/Circuit/Order/Levels.antt =====
-- The levels that `orderGatesByLevel` assigns: no gate stands below its inputs.
use qysnc_submission.Common.{
  ℕ, suc, ◌+◌, ◌≤◌, ◌<◌, ◌≡◌, refl, sym, ◌∙◌, subst, max, List, [], ◌∷◌, length, set, replicate,
  arith, length-set, length-replicate, get_or-set_self, get_or-set_ne,
}
use qysnc_submission.Circuit.{mul, Gate, gate, fin2, fin3, fin4, fin1, simd, const_op, Circuit, out}
use qysnc_submission.Circuit.Formed.{AllBelow, Fits, Formed}
use qysnc_submission.Circuit.Order.{level, simd_depth, gate_level, assign_levels}

-- Each wire of a list is on a level at most `n`.
unfoldable pub AllAtMost : List ℕ → ℕ → List ℕ → Type 0
AllAtMost ls n [] = Unit
AllAtMost ls n (w ∷ ws) = (level ls w ≤ n) × AllAtMost ls n ws

simd_depth-ge : (ls ws vs : List ℕ) (d : ℕ) → d ≤ simd_depth ls ws vs d
unfolding simd_depth
simd_depth-ge ls [] vs d = omega arith
simd_depth-ge ls (a ∷ ws) [] d = omega arith
simd_depth-ge ls (a ∷ ws) (b ∷ vs) d =
    omega (arith, simd_depth-ge ls ws vs (max (max (level ls a) (level ls b)) d))

simd_depth-AllAtMost :
    (ls ws vs : List ℕ) (d : ℕ)
    → length ws ≡ length vs
    → AllAtMost ls (simd_depth ls ws vs d) ws × AllAtMost ls (simd_depth ls ws vs d) vs
unfolding simd_depth AllAtMost
simd_depth-AllAtMost ls [] [] d e = (tt, tt)
simd_depth-AllAtMost ls [] (b ∷ vs) d e = absurd (omega arith)
simd_depth-AllAtMost ls (a ∷ ws) [] d e = absurd (omega arith)
simd_depth-AllAtMost ls (a ∷ ws) (b ∷ vs) d e =
    let d' = max (max (level ls a) (level ls b)) d in
    let (most, most') = simd_depth-AllAtMost ls ws vs d' (omega arith) in
    (
      (omega (arith, simd_depth-ge ls ws vs d'), most),
      (omega (arith, simd_depth-ge ls ws vs d'), most'),
    )

AllAtMost-level :
    (k n : ℕ) (ls ls' ws : List ℕ)
    → ((w : ℕ) → w < k → level ls' w ≡ level ls w)
    → AllBelow k ws
    → AllAtMost ls n ws
    → AllAtMost ls' n ws
unfolding AllAtMost AllBelow
AllAtMost-level k n ls ls' [] same below h = tt
AllAtMost-level k n ls ls' (w ∷ ws) same (lt, below) (le, h) =
    (omega (arith, same w lt), AllAtMost-level k n ls ls' ws same below h)

module _ {ℓ} {R : Type ℓ} where
  -- The inputs of a gate lie below its own level `n`, strictly unless the gate is linear.
  unfoldable pub IsAbove : List ℕ → ℕ → Gate R → Type 0
  IsAbove ls n (gate type o) = Unit
  IsAbove ls n (fin2 mul a b o) = (level ls a < n) × (level ls b < n)
  IsAbove ls n (fin2 _ a b o) = (level ls a ≤ n) × (level ls b ≤ n)
  IsAbove ls n (fin3 type a b c o) = (level ls a < n) × (level ls b < n) × (level ls c < n)
  IsAbove ls n (fin4 type a b c d o) =
      (level ls a < n) × (level ls b < n) × (level ls c < n) × (level ls d < n)
  IsAbove ls n (fin1 type a o) = level ls a < n
  IsAbove ls n (simd type ws vs o) = (m : ℕ) × (n ≡ suc m) × AllAtMost ls m ws × AllAtMost ls m vs
  IsAbove ls n (const_op type a c o) = level ls a ≤ n

  unfoldable pub Levelled : List ℕ → ℕ → List (Gate R) → Type 0
  Levelled ls depth [] = Unit
  Levelled ls depth (g ∷ gs) =
      IsAbove ls (level ls (out g)) g × (level ls (out g) ≤ depth) × Levelled ls depth gs

  frozen :
      (gs : List (Gate R)) (k w : ℕ) (ls : List ℕ) (depth : ℕ)
      → Formed k gs
      → w < k
      → level (assign_levels gs ls depth).0 w ≡ level ls w
  unfolding assign_levels Formed
  frozen [] k w ls depth h lt = refl
  frozen (g ∷ gs) k w ls depth (here, fits, h) lt =
      frozen gs (suc k) w _ _ h (omega arith)
      ∙ get_or-set_ne ls (out g) w (gate_level ls g) 0 (λ e. absurd (omega arith))

  deeper : (gs : List (Gate R)) (ls : List ℕ) (depth : ℕ) → depth ≤ (assign_levels gs ls depth).1
  unfolding assign_levels
  deeper [] ls depth = omega arith
  deeper (g ∷ gs) ls depth = omega (
    arith,
    deeper gs (set ls (out g) (gate_level ls g))
        (max depth (level (set ls (out g) (gate_level ls g)) (out g))),
  )

  gate_level-IsAbove :
      (k : ℕ) (ls : List ℕ) (g : Gate R) → Fits k g → IsAbove ls (gate_level ls g) g
  unfolding gate_level IsAbove Fits
  gate_level-IsAbove k ls (gate type o) f = tt
  gate_level-IsAbove k ls (fin2 mul a b o) f = (omega arith, omega arith)
  gate_level-IsAbove k ls (fin2 _ a b o) f = (omega arith, omega arith)
  gate_level-IsAbove k ls (fin3 type a b c o) f = (omega arith, omega arith, omega arith)
  gate_level-IsAbove k ls (fin4 type a b c d o) f =
      (omega arith, omega arith, omega arith, omega arith)
  gate_level-IsAbove k ls (fin1 type a o) f = omega arith
  gate_level-IsAbove k ls (simd type ws vs o) f =
      let (most, most') = simd_depth-AllAtMost ls ws vs 0 f.1 in
      (simd_depth ls ws vs 0, omega arith, most, most')
  gate_level-IsAbove k ls (const_op type a c o) f = omega arith

  IsAbove-level :
      (k n : ℕ) (ls ls' : List ℕ) (g : Gate R)
      → ((w : ℕ) → w < k → level ls' w ≡ level ls w)
      → Fits k g
      → IsAbove ls n g
      → IsAbove ls' n g
  unfolding IsAbove Fits
  IsAbove-level k n ls ls' (gate type o) same f h = tt
  IsAbove-level k n ls ls' (fin2 mul a b o) same (t, x, y) (p, q) =
      (omega (arith, same a x), omega (arith, same b y))
  IsAbove-level k n ls ls' (fin2 _ a b o) same (t, x, y) (p, q) =
      (omega (arith, same a x), omega (arith, same b y))
  IsAbove-level k n ls ls' (fin3 type a b c o) same (t, x, y, z) (p, q, r) =
      (omega (arith, same a x), omega (arith, same b y), omega (arith, same c z))
  IsAbove-level k n ls ls' (fin4 type a b c d o) same (t, x, y, z, u) (p, q, r, s) = (
    omega (arith, same a x),
    omega (arith, same b y),
    omega (arith, same c z),
    omega (arith, same d u),
  )
  IsAbove-level k n ls ls' (fin1 type a o) same (t, x) p = omega (arith, same a x)
  IsAbove-level k n ls ls' (simd type ws vs o) same (t, e, x, y) (m, em, p, q) =
      (m, em, AllAtMost-level k m ls ls' ws same x p, AllAtMost-level k m ls ls' vs same y q)
  IsAbove-level k n ls ls' (const_op type a c o) same (t, x) p = omega (arith, same a x)

  assign_levels-Levelled :
      (gs : List (Gate R)) (k : ℕ) (ls : List ℕ) (depth : ℕ)
      → Formed k gs
      → k + length gs ≤ length ls
      → Levelled (assign_levels gs ls depth).0 (assign_levels gs ls depth).1 gs
  unfolding assign_levels Formed Levelled
  assign_levels-Levelled [] k ls depth h len = tt
  assign_levels-Levelled (g ∷ gs) k ls depth (here, fits, h) len =
      let ls' = set ls (out g) (gate_level ls g) in
      let depth' = max depth (level ls' (out g)) in
      let final = (assign_levels gs ls' depth').0 in
      let own : level final (out g) ≡ gate_level ls g =
        frozen gs (suc k) (out g) ls' depth' h (omega arith)
        ∙ get_or-set_self ls (out g) (gate_level ls g) 0 (omega arith) in
      let kept : (w : ℕ) → w < k → level final w ≡ level ls w = λ w lt.
        frozen gs (suc k) w ls' depth' h (omega arith)
        ∙ get_or-set_ne ls (out g) w (gate_level ls g) 0 (λ e. absurd (omega arith)) in
      (
        subst (λ n. IsAbove final n g) (sym own)
            (IsAbove-level k (gate_level ls g) ls final g kept fits
              (gate_level-IsAbove k ls g fits)),
        omega (arith, deeper gs ls' depth', frozen gs (suc k) (out g) ls' depth' h (omega arith)),
        assign_levels-Levelled gs (suc k) ls' depth' h
            (omega (arith, length-set ls (out g) (gate_level ls g))),
      )

  -- The levels of the wires of a circuit that the builder could have made: none is above the depth, a
  -- gate's is not below those of its inputs, and strictly above them unless the gate is linear.
  pub levels_of_circuit :
      (c : Circuit R)
      → Formed 0 c.gates
      → Levelled
          (assign_levels c.gates (replicate (length c.gates) 0) 0).0
          (assign_levels c.gates (replicate (length c.gates) 0) 0).1
          c.gates
  levels_of_circuit c h =
      assign_levels-Levelled c.gates 0 (replicate (length c.gates) 0) 0 h
        (omega (arith, length-replicate {A = ℕ} (length c.gates) 0))
