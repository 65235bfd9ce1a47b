-- ===== src/Bus/Witness.antt =====
-- The role of a third party: `witness_observe_` and `witness_drain_` for one stream.
pub mod OneShot
mod Tests
use qysnc_submission.Common.{
  ℕ, zero, suc, ◌+◌, ◌-◌, Bool, true, false, not, ◌||◌, List, [], ◌∷◌, ltb, if◌then◌else◌, length,
  u32,
}
use qysnc_submission.Bus.Tx.{contains, remove}

pub record WitnessState : Type 0 where
  pub seen : List ℕ
  pub nacked : List ℕ
  pub max_seen : ℕ
  pub low_walk : ℕ
  pub any_seen : Bool

abbrev pub unseen : WitnessState
unseen = record { seen = []; nacked = []; max_seen = 0; low_walk = 0; any_seen = false }

-- The loop that moves `low_walk` through the numbers seen; each round removes one, so their number is
-- fuel enough.
pub advance : ℕ → WitnessState → WitnessState
advance zero ws = ws
advance (suc fuel) ws =
    let further =
      advance fuel
        (record ws { seen = remove ws.seen ws.low_walk; low_walk = u32 (ws.low_walk + 1) }) in
    if contains ws.seen ws.low_walk then further else ws

pub witness_observe : WitnessState → ℕ → WitnessState
unfolding advance
witness_observe ws seq =
    let seen = if contains ws.seen seq then ws.seen else seq ∷ ws.seen in
    advance (length seen) (record ws {
      seen = seen;
      max_seen = (if not ws.any_seen || ltb ws.max_seen seq then seq else ws.max_seen);
      any_seen = true;
    })

-- The walk over `left` numbers from `s` on: the state, and the numbers to ask for.
pub walk : ℕ → ℕ → WitnessState → WitnessState × List ℕ
walk zero s ws = (ws, [])
walk (suc left) s ws =
    let skipped = walk left (s + 1) ws in
    let (after, due) = walk left (s + 1) (record ws { nacked = s ∷ ws.nacked }) in
    if contains ws.seen s || contains ws.nacked s then skipped else (after, s ∷ due)

pub witness_drain : WitnessState → WitnessState × List ℕ
unfolding walk
witness_drain ws =
    let walked = walk (ws.max_seen - ws.low_walk) ws.low_walk ws in
    if not ws.any_seen then (ws, []) else walked
