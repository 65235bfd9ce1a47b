-- ===== src/Asterisk/Offline/Calls/Owner.antt =====
-- `randomShareWithParty`: the draw of the secret, and the party that draws it too.
use qysnc_submission.Common.{
  ℕ, zero, suc, ◌+◌, ◌-◌, ◌≤◌, ◌≡◌, refl, sym, ◌∙◌, ap, ap₂, subst, ◌==◌, ne→==, if◌then◌else◌,
  Bool-cases, true, false, inl, inr, List, [], ◌∷◌, arith,
}
use qysnc_submission.Ring.{CommRing}
use qysnc_submission.Sharing.{TpShare, push_value, push_tag, push_key_sh}
use qysnc_submission.Asterisk.Offline.{secret_loop}
use qysnc_submission.Asterisk.Offline.Role.{
  Tp, Vectors, Preparing, draw_at, with_party_loop, draw_secret, random_share_with_party,
  random_share_with_party_party, party_share_with_party,
}
use qysnc_submission.Asterisk.Offline.Sync.{Every, advance, Synced}

module _ {ℓ κ} {R : Type ℓ} {G : Type κ} ⦃r : CommRing R⦄ (randomize : G → R × G) where
  -- The generator of the party `dealer` moves.
  abbrev pub once_at : ℕ → ℕ → G → G
  once_at dealer pid g = if pid == dealer then (randomize g).1 else g

  advance_past :
      (dealer pid : ℕ) (pis : List G) → dealer + 1 ≤ pid → advance (once_at dealer) pid pis ≡ pis
  advance_past dealer pid [] h = refl
  advance_past dealer pid (g ∷ pis) h =
      let other : (pid == dealer) ≡ false = ne→== pid dealer (λ e. absurd (omega arith)) in
      ap₂ ◌∷◌ (ap (λ b. if b then (randomize g).1 else g) other)
        (advance_past dealer (suc pid) pis (omega arith))

  draw_at-advance :
      (dealer pid i : ℕ) (pis : List G)
      → pid + i ≡ dealer
      → (draw_at randomize i pis).1 ≡ advance (once_at dealer) pid pis
  unfolding draw_at
  draw_at-advance dealer pid i [] e = refl
  draw_at-advance dealer pid zero (g ∷ pis) e =
      let here : (pid == dealer) ≡ true = ground arith in
      ap₂ ◌∷◌ (ap (λ b. if b then (randomize g).1 else g) (sym here))
        (sym (advance_past dealer (suc pid) pis (omega arith)))
  draw_at-advance dealer pid (suc i) (g ∷ pis) e =
      let other : (pid == dealer) ≡ false = ne→== pid dealer (λ e'. absurd (omega arith)) in
      ap₂ ◌∷◌ (ap (λ b. if b then (randomize g).1 else g) (sym other))
        (draw_at-advance dealer (suc pid) i pis (omega arith))

  -- The order of the pushes does not matter.
  pub with_party_loop-eq-secret_loop :
      (pis : List G) (ks : List R) (share : TpShare R) (valn tagn : R)
      → with_party_loop randomize pis ks share valn tagn
        ≡ secret_loop randomize pis ks share valn tagn
  unfolding with_party_loop secret_loop push_value push_tag push_key_sh
  with_party_loop-eq-secret_loop [] ks share valn tagn = refl
  with_party_loop-eq-secret_loop (g ∷ []) [] share valn tagn = refl
  with_party_loop-eq-secret_loop (g ∷ []) (k ∷ ks) share valn tagn = refl
  with_party_loop-eq-secret_loop (g ∷ h ∷ pis) [] share valn tagn = refl
  with_party_loop-eq-secret_loop (g ∷ h ∷ pis) (k ∷ ks) share valn tagn =
      ap (λ z. ((randomize (randomize g).1).1 ∷ z.0, z.1, z.2, z.3))
        (with_party_loop-eq-secret_loop (h ∷ pis) ks _ _ _)

  draw_secret_party :
      (i : ℕ) (t : Tp R G)
      → draw_secret randomize (suc i) t ≡ (
        (draw_at randomize i t.dealer.pis).0,
        record t { dealer = record t.dealer { pis = (draw_at randomize i t.dealer.pis).1 } },
      )
  unfolding draw_secret
  draw_secret_party i t =
      let b : (suc i == 0) ≡ false = ground arith in
      let e : suc i - 1 ≡ i = omega arith in rw (b, e, draw_secret) refl

  -- What the draw of the secret leaves alone.
  pub record Drawn (dealer : ℕ) (t : Tp R G) : Type (ℓ ⊔ κ) where
    pub dealer_eq :
        (draw_secret randomize dealer t).1.dealer
        ≡ record t.dealer { pis = advance (once_at dealer) 1 t.dealer.pis }
    pub party_eq : (draw_secret randomize dealer t).1.rand_sh_party ≡ t.rand_sh_party
    pub preproc_eq : (draw_secret randomize dealer t).1.preproc ≡ t.preproc

  pub draw_secret-Drawn : (dealer : ℕ) (t : Tp R G) → Drawn dealer t
  unfolding draw_secret
  draw_secret-Drawn zero t = record {
    dealer_eq =
        ap (λ gs. record t.dealer { pis = gs })
          (sym (advance_past zero 1 t.dealer.pis (omega arith)));
    party_eq = refl;
    preproc_eq = refl;
  }
  draw_secret-Drawn (suc i) t = record {
    dealer_eq =
        ap (λ z. z.1.dealer) (draw_secret_party i t)
        ∙ ap (λ gs. record t.dealer { pis = gs })
            (draw_at-advance (suc i) 1 i t.dealer.pis (omega arith));
    party_eq = ap (λ z. z.1.rand_sh_party) (draw_secret_party i t);
    preproc_eq = ap (λ z. z.1.preproc) (draw_secret_party i t);
  }

  pub with_party-preproc :
      (dealer : ℕ) (t : Tp R G) → (random_share_with_party randomize dealer t).1.preproc ≡ t.preproc
  unfolding random_share_with_party
  with_party-preproc dealer t = let d = draw_secret-Drawn dealer t in d.preproc_eq

  -- A party past the one that gives the input.
  no_owner :
      (nP dealer pid : ℕ) (P : Preparing R G → Type ℓ) (ks : List R) (gs : List G)
      (rest : Vectors R) (ps : List (Preparing R G))
      → dealer + 1 ≤ pid
      → Synced nP pid ks gs rest ps
      → Every (λ p. (dealer == p.id) ≡ true → P p) ps
  unfolding Synced Every
  no_owner nP dealer pid P [] [] rest [] le h = record { lower = tt }
  no_owner nP dealer pid P (k ∷ ks) (g ∷ gs) rest (p ∷ ps) le (here, h) =
      let e = here.id in
      (λ b. absurd (ground arith), no_owner nP dealer (suc pid) P ks gs rest ps (omega arith) h)
  no_owner nP dealer pid P [] [] rest (p ∷ ps) le h = absurd h.lower
  no_owner nP dealer pid P [] (g ∷ gs) rest ps le h = absurd h.lower
  no_owner nP dealer pid P (k ∷ ks) [] rest ps le h = absurd h.lower
  no_owner nP dealer pid P (k ∷ ks) (g ∷ gs) rest [] le h = absurd h.lower

  owner_value :
      (nP dealer : ℕ) (p : Preparing R G)
      → (dealer == p.id) ≡ true
      → (party_share_with_party randomize nP dealer p).0.1 ≡ (randomize p.p0).0
  unfolding random_share_with_party_party
  owner_value nP dealer p b =
      let b' : (p.id == dealer) ≡ true = ground arith in
      elim (Bool-cases (p.id == nP)) [
        | inl c ↦ rw (b', c, random_share_with_party_party) refl
        | inr c ↦ rw (b', c, random_share_with_party_party) refl
      ]

  owner_draws :
      (nP dealer pid i : ℕ) (ks : List R) (gs : List G) (rest : Vectors R)
      (ps : List (Preparing R G))
      → pid + i ≡ dealer
      → Synced nP pid ks gs rest ps
      → Every
          (λ p.
            (dealer == p.id) ≡ true
            → (party_share_with_party randomize nP dealer p).0.1 ≡ (draw_at randomize i gs).0)
          ps
  unfolding Synced Every draw_at
  owner_draws nP dealer pid i [] [] rest [] e h = record { lower = tt }
  owner_draws nP dealer pid zero (k ∷ ks) (g ∷ gs) rest (p ∷ ps) e (here, h) = (
    λ b. owner_value nP dealer p b ∙ ap (λ z. (randomize z).0) here.p0,
    no_owner nP dealer (suc pid)
        (λ q. (party_share_with_party randomize nP dealer q).0.1 ≡ (randomize g).0) ks gs rest ps
        (omega arith) h,
  )
  owner_draws nP dealer pid (suc i) (k ∷ ks) (g ∷ gs) rest (p ∷ ps) e (here, h) =
      let e' = here.id in
      (λ b. absurd (ground arith), owner_draws nP dealer (suc pid) i ks gs rest ps (omega arith) h)
  owner_draws nP dealer pid i [] [] rest (p ∷ ps) e h = absurd h.lower
  owner_draws nP dealer pid i [] (g ∷ gs) rest ps e h = absurd h.lower
  owner_draws nP dealer pid i (k ∷ ks) [] rest ps e h = absurd h.lower
  owner_draws nP dealer pid i (k ∷ ks) (g ∷ gs) rest [] e h = absurd h.lower

  pub owner_knows :
      (nP dealer : ℕ) (t : Tp R G) (rest : Vectors R) (ps : List (Preparing R G))
      → Synced nP 1 t.dealer.key_shs t.dealer.pis rest ps
      → Every
          (λ p.
            (dealer == p.id) ≡ true
            → (party_share_with_party randomize nP dealer p).0.1
              ≡ (draw_secret randomize dealer t).0)
          ps
  unfolding draw_secret
  owner_knows nP zero t rest ps h =
      no_owner nP zero 1
        (λ p. (party_share_with_party randomize nP zero p).0.1 ≡ (randomize t.self).0)
        t.dealer.key_shs t.dealer.pis rest ps (omega arith) h
  owner_knows nP (suc i) t rest ps h =
      subst
        (λ v.
          Every
            (λ p. (suc i == p.id) ≡ true → (party_share_with_party randomize nP (suc i) p).0.1 ≡ v)
            ps)
        (sym (ap (λ z. z.0) (draw_secret_party i t)))
        (owner_draws nP (suc i) 1 i t.dealer.key_shs t.dealer.pis rest ps (omega arith) h)
