-- ===== src/Asterisk/Online/Round/Pack.antt =====
-- The vectors of a round, by the types of the gates: what a party puts in, the sums, and what each
-- gate gets back.
use qysnc_submission.Common.{
  fun_ext, suc, ◌+◌, ◌≡◌, refl, sym, ◌∙◌, ap, ap₂, inl, inr, Bool-cases, true, none, some, List, [],
  ◌∷◌, ◌++◌, map, append-nil, append_assoc, if◌then◌else◌, length, take, drop, replicate, arith,
  drop-drop, length-append, ◌≤◌,
}
use qysnc_submission.Ring.{CommRing, ◌⊕◌}
use qysnc_submission.Ring.Laws.{add-zero, total}
use qysnc_submission.Circuit.{Gate}
use qysnc_submission.Asterisk.Online.Round.Exchange.{exchange-add_up}
use qysnc_submission.Asterisk.Online.Round.{
  exchange, Slot, mult_slot, mult3_slot, mult4_slot, dotprod_slot, slot_beq, Comm, slot, push_back,
  online_comm, of_slot, add_vector, add_up, cut, total_comm,
}

pub slot_beq_refl : (s : Slot) → slot_beq s s ≡ true
unfolding slot_beq
slot_beq_refl mult_slot = refl
slot_beq_refl mult3_slot = refl
slot_beq_refl mult4_slot = refl
slot_beq_refl dotprod_slot = refl

pub slot_beq-eq : (s t : Slot) → slot_beq s t ≡ true → s ≡ t
unfolding slot_beq
slot_beq-eq s t h = ground arith

-- The gates of a level in the order of the vectors.
module _ {ℓ} {R : Type ℓ} where
  abbrev pub arranged : List (Gate R) → List (Gate R)
  arranged gs =
      of_slot mult_slot gs
      ++ (of_slot mult3_slot gs ++ (of_slot mult4_slot gs ++ of_slot dotprod_slot gs))

  -- The vectors that hold `f` of each gate.
  abbrev pub packed : (Gate R → R) → List (Gate R) → Comm R
  packed f gs s = map f (of_slot s gs)

  abbrev pub append : Comm R → Comm R → Comm R
  append c d s = c s ++ d s

  pub of_slot-none :
      (s : Slot) (g : Gate R) (gs : List (Gate R))
      → slot g ≡ none
      → of_slot s (g ∷ gs) ≡ of_slot s gs
  unfolding of_slot
  of_slot-none s g gs e = rw (e, of_slot) refl

  pub of_slot-some :
      (s t : Slot) (g : Gate R) (gs : List (Gate R))
      → slot g ≡ some t
      → of_slot s (g ∷ gs) ≡ (if slot_beq t s then g ∷ of_slot s gs else of_slot s gs)
  unfolding of_slot
  of_slot-some s t g gs e = rw (e, of_slot) refl

  pub packed-none :
      (f : Gate R → R) (g : Gate R) (gs : List (Gate R))
      → slot g ≡ none
      → packed f (g ∷ gs) ≡ packed f gs
  packed-none f g gs e = fun_ext (λ s. ap (map f) (of_slot-none s g gs e))

  pub append-push :
      (s : Slot) (f : Gate R → R) (g : Gate R) (gs : List (Gate R)) (c : Comm R)
      → slot g ≡ some s
      → append (push_back s (f g) c) (packed f gs) ≡ append c (packed f (g ∷ gs))
  unfolding push_back
  append-push s f g gs c e = fun_ext (λ t. at t)
    where
      at :
          (t : Slot)
          → push_back s (f g) c t ++ map f (of_slot t gs) ≡ c t ++ map f (of_slot t (g ∷ gs))
      at t = elim (Bool-cases (slot_beq s t)) [
        | inl h ↦
            rw (of_slot-some t s g gs e, h) (append_assoc (c t) (f g ∷ []) (map f (of_slot t gs)))
        | inr h ↦ rw (of_slot-some t s g gs e, h) refl
      ]

  map-append : (f : Gate R → R) (xs ys : List (Gate R)) → map f (xs ++ ys) ≡ map f xs ++ map f ys
  map-append f [] ys = refl
  map-append f (x ∷ xs) ys = ap (◌∷◌ (f x)) (map-append f xs ys)

  length-map : (f : Gate R → R) (xs : List (Gate R)) → length (map f xs) ≡ length xs
  length-map f [] = refl
  length-map f (x ∷ xs) = ap suc (length-map f xs)

  online_comm-packed :
      (f : Gate R → R) (gs : List (Gate R)) → online_comm (packed f gs) ≡ map f (arranged gs)
  unfolding online_comm
  online_comm-packed f gs = sym (
      map-append f (of_slot mult_slot gs) _
      ∙ ap (λ z. map f (of_slot mult_slot gs) ++ z)
          (map-append f (of_slot mult3_slot gs) _
            ∙ ap (λ z. map f (of_slot mult3_slot gs) ++ z)
                (map-append f (of_slot mult4_slot gs) (of_slot dotprod_slot gs))))

  take-map_append :
      (f : Gate R → R) (xs ys : List (Gate R)) → take (length xs) (map f (xs ++ ys)) ≡ map f xs
  take-map_append f [] ys = refl
  take-map_append f (x ∷ xs) ys = ap (◌∷◌ (f x)) (take-map_append f xs ys)

  drop-map_append :
      (f : Gate R → R) (xs ys : List (Gate R)) → drop (length xs) (map f (xs ++ ys)) ≡ map f ys
  drop-map_append f [] ys = refl
  drop-map_append f (x ∷ xs) ys = drop-map_append f xs ys

  length-arranged : (gs : List (Gate R)) → length (arranged gs) ≡ total_comm gs
  unfolding total_comm
  length-arranged gs =
      let after4 = length-append (of_slot mult4_slot gs) (of_slot dotprod_slot gs) in
      let after3 =
        length-append (of_slot mult3_slot gs) (of_slot mult4_slot gs ++ of_slot dotprod_slot gs) in
      let after = length-append (of_slot mult_slot gs) _ in after ∙ omega (arith, after3, after4)

module _ {ℓ} {R : Type ℓ} ⦃r : CommRing R⦄ where
  -- Cutting the vector of a level gives the vectors back.
  cut-packed : (f : Gate R → R) (gs : List (Gate R)) → cut gs (map f (arranged gs)) ≡ packed f gs
  unfolding cut
  cut-packed f gs = fun_ext (λ s. at s)
    where
      as1 : List (Gate R)
      as1 = of_slot mult_slot gs

      as3 : List (Gate R)
      as3 = of_slot mult3_slot gs

      as4 : List (Gate R)
      as4 = of_slot mult4_slot gs

      as_dot : List (Gate R)
      as_dot = of_slot dotprod_slot gs

      after1 : drop (length as1) (map f (arranged gs)) ≡ map f (as3 ++ (as4 ++ as_dot))
      after1 = drop-map_append f as1 (as3 ++ (as4 ++ as_dot))

      after3 : drop (length as3 + length as1) (map f (arranged gs)) ≡ map f (as4 ++ as_dot)
      after3 =
          ap (λ k. drop k (map f (arranged gs))) {y = length as1 + length as3} (omega arith)
          ∙ sym (drop-drop (length as3) (length as1) (map f (arranged gs)))
          ∙ ap (drop (length as3)) after1
          ∙ drop-map_append f as3 (as4 ++ as_dot)

      after4 : drop (length as4 + length as3 + length as1) (map f (arranged gs)) ≡ map f as_dot
      after4 =
          ap (λ k. drop k (map f (arranged gs))) {y = (length as3 + length as1) + length as4}
            (omega arith)
          ∙ sym (drop-drop (length as4) (length as3 + length as1) (map f (arranged gs)))
          ∙ ap (drop (length as4)) after3
          ∙ drop-map_append f as4 as_dot

      at : (s : Slot) → cut gs (map f (arranged gs)) s ≡ map f (of_slot s gs)
      at mult_slot = take-map_append f as1 (as3 ++ (as4 ++ as_dot))
      at mult3_slot = ap (take (length as3)) after1 ∙ take-map_append f as3 (as4 ++ as_dot)
      at mult4_slot = ap (take (length as4)) after3 ∙ take-map_append f as4 as_dot
      at dotprod_slot =
          ap (take (length as_dot)) (after4 ∙ ap (map f) (sym (append-nil as_dot)))
          ∙ take-map_append f as_dot []

  add_vector-map :
      (f h : Gate R → R) (gs : List (Gate R))
      → add_vector (map f gs) (map h gs) ≡ map (λ g. f g ⊕ h g) gs
  unfolding add_vector
  add_vector-map f h [] = refl
  add_vector-map f h (g ∷ gs) = ap (◌∷◌ (f g ⊕ h g)) (add_vector-map f h gs)

  map-eq :
      (f h : Gate R → R) (gs : List (Gate R)) → ((g : Gate R) → f g ≡ h g) → map f gs ≡ map h gs
  map-eq f h gs e = ap (λ k. map k gs) (fun_ext e)

  replicate-map : (gs : List (Gate R)) (x : R) → replicate (length gs) x ≡ map (λ g. x) gs
  replicate-map [] x = refl
  replicate-map (g ∷ gs) x = ap (◌∷◌ x) (replicate-map gs x)

  module _ {κ} {P : Type κ} (f : P → Gate R → R) where
    abbrev pub sum_over : List P → Gate R → R
    sum_over ps g = total (map (λ p. f p g) ps)

    add_up-map :
        (ps : List P) (acc : Gate R → R) (gs : List (Gate R))
        → add_up (map acc gs) (map (λ p. map (f p) gs) ps) ≡ map (λ g. acc g ⊕ sum_over ps g) gs
    unfolding add_up
    add_up-map [] acc gs = map-eq acc _ gs (λ g. sym (add-zero (acc g)))
    add_up-map (p ∷ ps) acc gs =
        ap (λ z. add_up z (map (λ p. map (f p) gs) ps)) (add_vector-map acc (f p) gs)
        ∙ add_up-map ps (λ g. acc g ⊕ f p g) gs
        ∙ map-eq _ _ gs (λ g. r.add_assoc (acc g) (f p g) (sum_over ps g))

    -- What the vectors of all parties come to.
    pub round_sums :
        (ps : List P) (gs : List (Gate R))
        → 1 ≤ length ps
        → cut gs
            (exchange (length ps) (total_comm gs) (map (λ p. online_comm (packed (f p) gs)) ps))
          ≡ packed (sum_over ps) gs
    round_sums ps gs h =
        ap (cut gs) (
          exchange-add_up (length ps) (total_comm gs) _ h
          ∙ ap₂ add_up
              (ap (λ n. replicate n r.zero) (sym (length-arranged gs))
                ∙ replicate-map (arranged gs) r.zero)
              (ap (λ k. map k ps) (fun_ext (λ p. online_comm-packed (f p) gs)))
          ∙ add_up-map ps (λ g. r.zero) (arranged gs)
          ∙ map-eq _ (sum_over ps) (arranged gs) (λ g. r.zero-add (sum_over ps g)))
        ∙ cut-packed (sum_over ps) gs
