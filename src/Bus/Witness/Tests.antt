-- ===== src/Bus/Witness/Tests.antt =====
-- A witness that misses the frames 1 and 2 of five.
use qysnc_submission.Common.{◌≡◌, refl, true, false, [], ◌∷◌, arith}
use qysnc_submission.Bus.Tx.{contains, remove}
use qysnc_submission.Bus.Witness.{WitnessState, unseen, witness_observe, witness_drain}
use qysnc_submission.Bus.Witness.OneShot.{Watch, begins, sees, one_shot}

abbrev watching : WitnessState
watching = witness_observe (witness_observe (witness_observe unseen 0) 4) 3

watching-Watch : Watch 5 (3 ∷ 4 ∷ 0 ∷ []) [] watching
watching-Watch = sees 3 (sees 4 (sees 0 begins (omega arith)) (omega arith)) (omega arith)

asks_for_missing : (witness_drain watching).1 ≡ 1 ∷ 2 ∷ []
unfolding witness_drain witness_observe contains remove
asks_for_missing = refl

two_asked : contains (witness_drain watching).1 2 ≡ true
unfolding witness_drain witness_observe contains remove
two_asked = refl

one_shot_example : (contains (3 ∷ 4 ∷ 0 ∷ []) 2 ≡ false) × (contains [] 2 ≡ false)
one_shot_example = one_shot 2 (omega arith) watching-Watch two_asked
