-- ===== src/Asterisk/Online/Verify.antt =====
-- code/src/asterisk/online_evaluator_load_balanced.cpp, `MACVerification`: the parties check the
-- values they opened against the tags, all gates at once, by a random linear combination.
pub mod Sum
use qysnc_submission.Common.{
  ℕ, zero, suc, ◌≡◌, refl, sym, ◌∙◌, ap, ap₂, fun_ext, Option, none, some, Bool, true, List, [],
  ◌∷◌, map, get_or,
}
use mathlib.Core.Logic.{Lift}
use qysnc_submission.Ring.{CommRing, ◌⊕◌, ◌⊗◌, ◌⊖◌}
use qysnc_submission.Ring.Laws.{total, mul-zero, neg-zero, add-neg}
use qysnc_submission.Ring.Solve.{var, sum, difference, product, eval-normal_form}
use qysnc_submission.Circuit.{Gate, out}
use qysnc_submission.Asterisk.{Party, Checks, no_share, mask_at}
use qysnc_submission.Asterisk.Online.Round.{
  Slot, mult_slot, mult3_slot, mult4_slot, dotprod_slot, slot,
}

-- How many times a gate is added. The `case` labels have no `break`, so a `kMul` gate goes on
-- through those of `kDotprod`, `kMul3` and `kMul4`, with a new random factor at each.
unfoldable pub repeats : Slot → ℕ
repeats mult_slot = 4
repeats dotprod_slot = 3
repeats mult3_slot = 2
repeats mult4_slot = 1

module _ {ℓ} {R : Type ℓ} ⦃r : CommRing R⦄ where
  -- The trusted party's sum, which it sends to all.
  unfoldable pub add_omegas : R → List R → R
  add_omegas res [] = res
  add_omegas res (omega ∷ omegas) = add_omegas (res ⊕ omega) omegas

-- `G` is the state of the generator that the parties seed with the same key; `randomize` is
-- `randomizeZZp`.
module _ {ℓ κ} {R : Type ℓ} {G : Type κ} ⦃r : CommRing R⦄ (randomize : G → R × G) where
  unfoldable pub add_term : ℕ → R → G × R → G × R
  add_term zero x st = st
  add_term (suc n) x (prg, omega) =
      let (rho, prg') = randomize prg in add_term n x (prg', omega ⊕ rho ⊗ x)

  -- The loop over the gates; `term` is what is multiplied by the random factor.
  unfoldable pub combine_gates : (Gate R → R) → List (Gate R) → G × R → G × R
  unfolding add_term repeats
  combine_gates term [] st = st
  combine_gates term (g ∷ gs) st =
      combine_gates term gs
        (elim (slot g) [ none ↦ st | some s ↦ add_term (repeats s) (term g) st ])

  unfoldable pub combine_levels : (Gate R → R) → List (List (Gate R)) → G × R → G × R
  unfolding combine_gates
  combine_levels term [] st = st
  combine_levels term (gs ∷ levels) st = combine_levels term levels (combine_gates term gs st)

  -- What a party sends to the trusted party.
  pub party_omega : List (List (Gate R)) → G → Party R × Checks R → R
  unfolding combine_levels
  party_omega levels prg (p, checks) =
      let key = (mask_at p 0).key_sh in
      (combine_levels
        (λ g. get_or checks.q_val (out g) r.zero ⊗ key ⊖ (get_or checks.q_sh (out g) no_share).tag)
        levels (prg, r.zero)).1

  -- The result at every party.
  pub mac_verification : (R → Bool) → List (List (Gate R)) → G → List (Party R × Checks R) → Bool
  unfolding party_omega add_omegas
  mac_verification is_zero levels prg states =
      is_zero (add_omegas r.zero (map (party_omega levels prg) states))
