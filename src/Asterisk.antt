-- ===== src/Asterisk.antt =====
-- code/src/asterisk/preproc.h and the state of the evaluators in code/src/asterisk: what the offline
-- phase leaves for each gate, and what a party keeps in the online phase. The classes for `kEqz` and
-- `kLtz` gates are left out.
pub mod Shared
pub mod Online
pub mod Offline
pub mod Protocol
mod Tests
use qysnc_submission.Common.{ℕ, List, get_or}
use qysnc_submission.Ring.{CommRing}
use qysnc_submission.Sharing.{AuthAddShare}

-- `PreprocGate` and its subclasses, with their fields in the order of the constructors. Every field
-- of theirs that is a share stands there twice, as `mask...` and as `tpmask...`: `S` is
-- `AuthAddShare R` for the fields that a party uses and `TpShare R` for those of the trusted party.
pub data PreprocGate {ℓ} (R S : Type ℓ) : Type ℓ where
  preproc_gate : S → PreprocGate R S
  preproc_input : S → ℕ → R → PreprocGate R S
  preproc_mult : S → S → PreprocGate R S
  preproc_mult3 : S → S → S → S → S → PreprocGate R S
  preproc_mult4 : S → S → S → S → S → S → S → S → S → S → S → S → PreprocGate R S
  preproc_dotp : S → S → PreprocGate R S

module _ {ℓ} {R S : Type ℓ} where
  -- `mask` (`tpmask` for the trusted party).
  unfoldable pub mask : PreprocGate R S → S
  mask (preproc_gate m) = m
  mask (preproc_input m pid v) = m
  mask (preproc_mult m ab) = m
  mask (preproc_mult3 m ab ac bc abc) = m
  mask (preproc_mult4 m ab ac ad bc bd cd abc abd acd bcd abcd) = m
  mask (preproc_dotp m ab) = m

-- What a party (from 1 on) knows in the online phase: its id, its preprocessed gates, the wires.
pub record Party {ℓ} (R : Type ℓ) : Type ℓ where
  pub id : ℕ
  pub preproc : List (PreprocGate R (AuthAddShare R))
  pub wires : List R

-- The rest of its state, which only `MACVerification` reads: the share it has of each gate's masked
-- output, and the value that the parties agreed on.
pub record Checks {ℓ} (R : Type ℓ) : Type ℓ where
  pub q_sh : List (AuthAddShare R)
  pub q_val : List R

module _ {ℓ} {R : Type ℓ} ⦃r : CommRing R⦄ where
  -- `AuthAddShare{}`
  abbrev pub no_share : AuthAddShare R
  no_share = record { key_sh = r.zero; value = r.zero; tag = r.zero }

  -- A read out of range, which no circuit of the builder leads to, gives zero.
  abbrev pub preproc_at : Party R → ℕ → PreprocGate R (AuthAddShare R)
  preproc_at p w = get_or p.preproc w (preproc_gate no_share)

  abbrev pub mask_at : Party R → ℕ → AuthAddShare R
  mask_at p w = mask (preproc_at p w)

  abbrev pub wire_at : Party R → ℕ → R
  wire_at p w = get_or p.wires w r.zero
