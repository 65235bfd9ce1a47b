-- ===== src/Asterisk/Offline/Prepare.antt =====
-- One gate of `setWireMasksParty`, of any kind but `kEqz` and `kLtz`: what the online phase needs of it.
pub mod Products
pub mod Input
use qysnc_submission.Common.{
  ℕ, zero, suc, ◌<◌, ◌≡◌, refl, sym, ◌∙◌, ap, ap₂, subst, ◌==◌, true, List, [], ◌∷◌, map, length,
  get_or, set, arith,
}
use mathlib.Core.Logic.{Lift}
use qysnc_submission.Ring.{CommRing, ◌⊕◌, ◌⊗◌, ◌⊖◌}
use qysnc_submission.Ring.Laws.{add-zero}
use qysnc_submission.Sharing.{
  AuthAddShare, TpShare, plus, minus, times, tp_plus, tp_minus, tp_times,
}
use qysnc_submission.Circuit.{
  inp, add, mul, mul3, mul4, sub, const_add, const_mul, dotprod, Gate, gate, fin2, fin3, fin4, fin1,
  simd, const_op, out,
}
use qysnc_submission.Asterisk.{
  PreprocGate, preproc_gate, preproc_input, preproc_mult, preproc_mult3, preproc_mult4,
  preproc_dotp, mask, mask_at, preproc_at, Party, no_share,
}
use qysnc_submission.Asterisk.Shared.{IsSharing, Shared, Everyone}
use qysnc_submission.Asterisk.Online.Products.{dot_product}
use qysnc_submission.Asterisk.Online.Refine.{WithWire}
use qysnc_submission.Asterisk.Online.Setup.{AllOf, Reads, Prepared, parts, part_at}
use qysnc_submission.Asterisk.Offline.Role.{
  Tp, Vectors, Preparing, tp_role, party_role, random_share_with_party, draw_secret,
  party_share_with_party,
}
use qysnc_submission.Asterisk.Offline.Gates.{
  mask_of, sec_of, mask_products, prepare_gate, prepare_mult, prepare_mult3, prepare_mult4,
  prepare_dotprod,
}
use qysnc_submission.Asterisk.Offline.Sync.{IsTp, Every, Extends, Joint}
use qysnc_submission.Asterisk.Offline.Place.{entry, party_of, Every-map}
use qysnc_submission.Asterisk.Offline.Ready.{tp_next, party_next, Ready, Ready-sec_of}
use qysnc_submission.Asterisk.Offline.Linear.{
  tp_plus-IsTp, tp_minus-IsTp, tp_times-IsTp, entries-plus, entries-minus, entries-times,
  linear-Ready,
}
use qysnc_submission.Asterisk.Offline.Multiply.{
  Multiplied, multiply-Ready, Multiplied-Shared, Multiplied-Everyone, later,
}

module _ {ℓ κ} {R : Type ℓ} {G : Type κ} ⦃r : CommRing R⦄ (randomize : G → R × G) (nP n : ℕ)
    (pid_of : ℕ → ℕ) (whole : Vectors R) (k : R) (d : ℕ → R) where
  -- A gate is prepared: its output's mask is known, and the parties, taken on by what leaves their
  -- entry for it alone, have what the online phase needs.
  pub record Prepares (D : ℕ → Type 0) (t : Tp R G) (ps : List (Preparing R G)) (g : Gate R)
      : Type (ℓ ⊔ κ) where
    pub ready :
        Ready randomize nP n pid_of whole k d
          (WithWire D (out g))
          (tp_next randomize nP n pid_of whole k d g t)
          (map (party_next randomize nP n pid_of whole k d g) ps)
    pub prepared :
        (fin : Preparing R G → Preparing R G)
        → ((p : Preparing R G) → entry (fin p) (out g) ≡ entry p (out g))
        → Prepared (later randomize nP n pid_of whole k d ps g fin) k d g

  -- What a gate starts from.
  pub record Before (D : ℕ → Type 0) (t : Tp R G) (ps : List (Preparing R G)) (g : Gate R)
      : Type (ℓ ⊔ κ) where
    pub ready : Ready randomize nP n pid_of whole k d D t ps
    pub new : D (out g) → ⊥
    pub below : out g < n
    pub known :
        d (out g) ≡ sec_of (tp_role randomize) (tp_next randomize nP n pid_of whole k d g t) (out g)
    pub ext : Extends whole (tp_next randomize nP n pid_of whole k d g t)

  module _ {D : ℕ → Type 0} (t : Tp R G) (ps : List (Preparing R G)) where
    pub add-Prepares :
        (a b o : ℕ) → D a → D b → Before D t ps (fin2 add a b o) → Prepares D t ps (fin2 add a b o)
    unfolding prepare_gate out tp_role party_role Prepared
    add-Prepares a b o da db h =
        let done =
          linear-Ready randomize nP n pid_of whole k d t ps (fin2 add a b o) _
            (λ p. plus (mask (entry p a)) (mask (entry p b))) (d a ⊕ d b) h.ready h.new h.below
            h.known refl (λ p. refl)
            (tp_plus-IsTp nP _ _ (d a) (d b) (h.ready.tp a da) (h.ready.tp b db))
            (entries-plus ps k a b (d a) (d b) (h.ready.shared a da) (h.ready.shared b db)) in
        record { ready = done.0; prepared = λ fin leaves. done.1 }

    pub sub-Prepares :
        (a b o : ℕ) → D a → D b → Before D t ps (fin2 sub a b o) → Prepares D t ps (fin2 sub a b o)
    unfolding prepare_gate out tp_role party_role Prepared
    sub-Prepares a b o da db h =
        let done =
          linear-Ready randomize nP n pid_of whole k d t ps (fin2 sub a b o) _
            (λ p. minus (mask (entry p a)) (mask (entry p b))) (d a ⊖ d b) h.ready h.new h.below
            h.known refl (λ p. refl)
            (tp_minus-IsTp nP _ _ (d a) (d b) (h.ready.tp a da) (h.ready.tp b db))
            (entries-minus ps k a b (d a) (d b) (h.ready.shared a da) (h.ready.shared b db)) in
        record { ready = done.0; prepared = λ fin leaves. done.1 }

    pub const_add-Prepares :
        (a : ℕ) (c : R) (o : ℕ)
        → D a
        → Before D t ps (const_op const_add a c o)
        → Prepares D t ps (const_op const_add a c o)
    unfolding prepare_gate out tp_role party_role Prepared
    const_add-Prepares a c o da h =
        let done =
          linear-Ready randomize nP n pid_of whole k d t ps (const_op const_add a c o) _
            (λ p. mask (entry p a)) (d a) h.ready h.new h.below h.known refl (λ p. refl)
            (h.ready.tp a da) (h.ready.shared a da) in
        record { ready = done.0; prepared = λ fin leaves. done.1 }

    pub const_mul-Prepares :
        (a : ℕ) (c : R) (o : ℕ)
        → D a
        → Before D t ps (const_op const_mul a c o)
        → Prepares D t ps (const_op const_mul a c o)
    unfolding prepare_gate out tp_role party_role Prepared
    const_mul-Prepares a c o da h =
        let done =
          linear-Ready randomize nP n pid_of whole k d t ps (const_op const_mul a c o) _
            (λ p. times (mask (entry p a)) c) (d a ⊗ c) h.ready h.new h.below h.known refl
            (λ p. refl) (tp_times-IsTp nP _ (d a) (h.ready.tp a da) c)
            (entries-times ps k a (d a) c (h.ready.shared a da)) in
        record { ready = done.0; prepared = λ fin leaves. done.1 }
