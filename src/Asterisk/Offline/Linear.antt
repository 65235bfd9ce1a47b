-- ===== src/Asterisk/Offline/Linear.antt =====
-- The linear gates of `setWireMasksParty`: the mask of the output is computed from those of the
-- inputs, by the trusted party and by every party.
use qysnc_submission.Common.{ℕ, ◌<◌, ◌≡◌, refl, sym, ◌∙◌, ap, ap₂, subst, List, map, set}
use qysnc_submission.Ring.{CommRing, ◌⊕◌, ◌⊗◌, ◌⊖◌}
use qysnc_submission.Sharing.{
  AuthAddShare, TpShare, plus, minus, times, tp_plus, tp_minus, tp_times,
}
use qysnc_submission.Sharing.Total.{tp_plus-total, tp_times-total, tp_minus-total}
use qysnc_submission.Circuit.{Gate, out}
use qysnc_submission.Asterisk.{preproc_gate, mask, mask_at, Party}
use qysnc_submission.Asterisk.Shared.{IsSharing, Shared, Shared-plus, Shared-minus, Shared-times}
use qysnc_submission.Asterisk.Online.Refine.{WithWire}
use qysnc_submission.Asterisk.Offline.Role.{Tp, Vectors, Preparing, tp_role}
use qysnc_submission.Asterisk.Offline.Gates.{sec_of}
use qysnc_submission.Asterisk.Offline.Sync.{IsTp, Joint}
use qysnc_submission.Asterisk.Offline.Together.{map-map, map-id, put-Joint}
use qysnc_submission.Asterisk.Offline.Place.{
  entry, party_of, Every-map, map-Every, tp_written, parties_written,
}
use qysnc_submission.Asterisk.Offline.Ready.{
  tp_next, party_next, tpmask_of, Ready, Ready-next, sec_of-IsTp,
}

module _ {ℓ} {R : Type ℓ} ⦃r : CommRing R⦄ (nP : ℕ) (x y : TpShare R) (v w : R) where
  pub tp_plus-IsTp : IsTp nP x v → IsTp nP y w → IsTp nP (tp_plus x y) (v ⊕ w)
  tp_plus-IsTp h h' =
      let (zs, e, size, sums) =
        tp_plus-total x y r.zero r.zero h.shares h'.shares h.values h'.values
          (h.size ∙ sym h'.size) in
      record { shares = zs; values = e; size = size ∙ h.size; sums = sums ∙ ap₂ ◌⊕◌ h.sums h'.sums }

  pub tp_minus-IsTp : IsTp nP x v → IsTp nP y w → IsTp nP (tp_minus x y) (v ⊖ w)
  tp_minus-IsTp h h' =
      let (zs, e, size, sums) =
        tp_minus-total x y r.zero r.zero h.shares h'.shares h.values h'.values
          (h.size ∙ sym h'.size) in
      record { shares = zs; values = e; size = size ∙ h.size; sums = sums ∙ ap₂ ◌⊖◌ h.sums h'.sums }

module _ {ℓ} {R : Type ℓ} ⦃r : CommRing R⦄ (nP : ℕ) (x : TpShare R) (v : R) where
  pub tp_times-IsTp : IsTp nP x v → (c : R) → IsTp nP (tp_times x c) (v ⊗ c)
  tp_times-IsTp h c =
      let (zs, e, size, sums) = tp_times-total x c r.zero h.shares h.values in
      record { shares = zs; values = e; size = size ∙ h.size; sums = sums ∙ ap (λ z. z ⊗ c) h.sums }

module _ {ℓ κ} {R : Type ℓ} {G : Type κ} ⦃r : CommRing R⦄ (ps : List (Preparing R G)) (k : R) where
  -- The shares of masks, as those of the parties of the online phase.
  pub entries-Shared :
      (f : Party R → AuthAddShare R) (v : R)
      → IsSharing (map (λ p. f (party_of p)) ps) k v
      → Shared (map party_of ps) k f v
  entries-Shared f v h = record {
    shares = subst (λ xs. IsSharing xs k v) (sym (map-map f party_of ps)) h;
  }

  Shared-entries :
      (f : Party R → AuthAddShare R) (v : R)
      → Shared (map party_of ps) k f v
      → IsSharing (map (λ p. f (party_of p)) ps) k v
  Shared-entries f v h = subst (λ xs. IsSharing xs k v) (map-map f party_of ps) h.shares

  module _ (a b : ℕ) (v w : R) (ha : IsSharing (map (λ p. mask (entry p a)) ps) k v) where
    pub entries-plus :
        IsSharing (map (λ p. mask (entry p b)) ps) k w
        → IsSharing (map (λ p. plus (mask (entry p a)) (mask (entry p b))) ps) k (v ⊕ w)
    entries-plus hb =
        Shared-entries (λ q. plus (mask_at q a) (mask_at q b)) (v ⊕ w)
          (Shared-plus (map party_of ps) k (entries-Shared (λ q. mask_at q a) v ha)
            (entries-Shared (λ q. mask_at q b) w hb))

    pub entries-minus :
        IsSharing (map (λ p. mask (entry p b)) ps) k w
        → IsSharing (map (λ p. minus (mask (entry p a)) (mask (entry p b))) ps) k (v ⊖ w)
    entries-minus hb =
        Shared-entries (λ q. minus (mask_at q a) (mask_at q b)) (v ⊖ w)
          (Shared-minus (map party_of ps) k (entries-Shared (λ q. mask_at q a) v ha)
            (entries-Shared (λ q. mask_at q b) w hb))

  pub entries-times :
      (a : ℕ) (v c : R)
      → IsSharing (map (λ p. mask (entry p a)) ps) k v
      → IsSharing (map (λ p. times (mask (entry p a)) c) ps) k (v ⊗ c)
  entries-times a v c h =
      Shared-entries (λ q. times (mask_at q a) c) (v ⊗ c)
        (Shared-times (map party_of ps) k c (entries-Shared (λ q. mask_at q a) v h))

module _ {ℓ κ} {R : Type ℓ} {G : Type κ} ⦃r : CommRing R⦄ (randomize : G → R × G) (nP n : ℕ)
    (pid_of : ℕ → ℕ) (whole : Vectors R) (k : R) (d : ℕ → R) where
  -- A linear gate: it stores `x` at the trusted party and `f p` at a party.
  pub linear-Ready :
      {D : ℕ → Type 0} (t : Tp R G) (ps : List (Preparing R G)) (g : Gate R) (x : TpShare R)
      (f : Preparing R G → AuthAddShare R) (v : R)
      → Ready randomize nP n pid_of whole k d D t ps
      → (D (out g) → ⊥)
      → out g < n
      → d (out g) ≡ sec_of (tp_role randomize) (tp_next randomize nP n pid_of whole k d g t) (out g)
      → tp_next randomize nP n pid_of whole k d g t
        ≡ record t { preproc = set t.preproc (out g) (preproc_gate x) }
      → ((p : Preparing R G)
          → party_next randomize nP n pid_of whole k d g p
            ≡ record p { preproc = set p.preproc (out g) (preproc_gate (f p)) })
      → IsTp nP x v
      → IsSharing (map f ps) k v
      → Ready randomize nP n pid_of whole k d
          (WithWire D (out g))
          (tp_next randomize nP n pid_of whole k d g t)
          (map (party_next randomize nP n pid_of whole k d g) ps)
        × (d (out g) ≡ v)
  unfolding tp_role mask
  linear-Ready {D} t ps g x f v h new lt known et ep tp shared =
      let t' = tp_next randomize nP n pid_of whole k d g t in
      let next = party_next randomize nP n pid_of whole k d g in
      let stored : IsTp nP (tpmask_of randomize nP n pid_of whole k d t' (out g)) v =
        subst (λ z. IsTp nP (tpmask_of randomize nP n pid_of whole k d z (out g)) v) (sym et)
          (subst (λ z. IsTp nP (mask z) v)
            (sym (
              tp_written randomize nP n whole t ps (out g) t (preproc_gate x) _ lt h.sized.tp refl))
            tp) in
      let joint : Joint nP whole t' (map next ps) =
        subst (λ z. Joint nP whole z (map next ps)) (sym et)
          (put-Joint nP whole t ps (set t.preproc (out g) (preproc_gate x)) (λ p. p) next
            (λ p. ep p ∙ sym (ap (λ q. record p { preproc = q.preproc }) (ep p)))
            (subst (Joint nP whole t) (sym (map-id ps)) h.joint)) in
      let placed =
        parties_written randomize nP n whole t ps (out g) next (λ p. preproc_gate (f p)) lt
          h.sized.parties (λ p. ap (λ q. q.preproc) (ep p)) in
      let same : map (λ p. mask (entry (next p) (out g))) ps ≡ map f ps =
        map-Every _ _ ps (Every-map _ _ ps (λ p e. ap mask e) placed) in
      (
        Ready-next randomize nP n pid_of whole k d t ps g v h new joint (ap (λ z. z.dealer.key) et)
            stored
            (subst (λ xs. IsSharing xs t.dealer.key v) (sym same)
              (subst (λ c. IsSharing (map f ps) c v) (sym h.key) shared))
            known,
        known ∙ sec_of-IsTp randomize nP n pid_of whole k d t' (out g) v stored,
      )
