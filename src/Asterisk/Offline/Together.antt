-- ===== src/Asterisk/Offline/Together.antt =====
-- A gate with products: `randomShare` and one `randomShareSecret` for each product, of all together.
use qysnc_submission.Common.{
  ℕ, zero, suc, ◌<◌, ◌≡◌, refl, sym, ◌∙◌, ap, subst, List, [], ◌∷◌, map, length, get_or, arith,
}
use qysnc_submission.Ring.{CommRing}
use qysnc_submission.Sharing.{AuthAddShare, TpShare}
use qysnc_submission.Asterisk.{PreprocGate, no_share}
use qysnc_submission.Asterisk.Shared.{IsSharing}
use qysnc_submission.Asterisk.Offline.Role.{
  Tp, Vectors, Preparing, tp_share_secret, tp_role, party_role, party_share_secret,
}
use qysnc_submission.Asterisk.Offline.Sync.{Extends, Synced, Joint}
use qysnc_submission.Asterisk.Offline.Keeps.{products}
use qysnc_submission.Asterisk.Offline.Calls.Secret.{
  tp_share_secret-key, tp_share_secret-Dealt, tp_share_secret-Extends, share_secret-Joint,
}
use qysnc_submission.Asterisk.Offline.Draws.{Dealt}

module _ {ι ι' ι''} {A : Type ι} {B : Type ι'} {C : Type ι''} where
  pub map-map : (f : B → C) (g : A → B) (xs : List A) → map f (map g xs) ≡ map (λ x. f (g x)) xs
  map-map f g [] = refl
  map-map f g (x ∷ xs) = ap (◌∷◌ (f (g x))) (map-map f g xs)

pub map-id {ι} : {A : Type ι} (xs : List A) → map (λ x. x) xs ≡ xs
map-id [] = refl
map-id (x ∷ xs) = ap (◌∷◌ x) (map-id xs)

module _ {ℓ κ} {R : Type ℓ} {G : Type κ} where
  -- The gates do not matter for being in step.
  pub Synced-preproc :
      (nP : ℕ) (f g : Preparing R G → Preparing R G)
      → ((p : Preparing R G) → g p ≡ record (f p) { preproc = (g p).preproc })
      → (pid : ℕ) (ks : List R) (gs : List G) (rest : Vectors R) (ps : List (Preparing R G))
      → Synced nP pid ks gs rest (map f ps)
      → Synced nP pid ks gs rest (map g ps)
  unfolding Synced
  Synced-preproc nP f g e pid [] [] rest [] h = h
  Synced-preproc nP f g e pid (k ∷ ks) (x ∷ gs) rest (p ∷ ps) (here, h) = (
    record {
      id = ap (λ q. q.id) (e p) ∙ here.id;
      key = ap (λ q. q.key_sh) (e p) ∙ here.key;
      p0 = ap (λ q. q.p0) (e p) ∙ here.p0;
      vectors = λ last. ap (λ q. q.vectors) (e p) ∙ here.vectors last;
    },
    Synced-preproc nP f g e (suc pid) ks gs rest ps h,
  )
  Synced-preproc nP f g e pid [] [] rest (p ∷ ps) h = absurd h.lower
  Synced-preproc nP f g e pid [] (x ∷ gs) rest ps h = absurd h.lower
  Synced-preproc nP f g e pid (k ∷ ks) [] rest ps h = absurd h.lower
  Synced-preproc nP f g e pid (k ∷ ks) (x ∷ gs) rest [] h = absurd h.lower

module _ {ℓ κ} {R : Type ℓ} {G : Type κ} ⦃r : CommRing R⦄ where
  -- An entry of the gates is written, by all.
  pub put-Joint :
      (nP : ℕ) (whole : Vectors R) (t : Tp R G) (ps : List (Preparing R G))
      (gates : List (PreprocGate R (TpShare R))) (f g : Preparing R G → Preparing R G)
      → ((p : Preparing R G) → g p ≡ record (f p) { preproc = (g p).preproc })
      → Joint nP whole t (map f ps)
      → Joint nP whole (record t { preproc = gates }) (map g ps)
  put-Joint nP whole t ps gates f g e h = record {
    dealt = h.dealt;
    rest = h.rest;
    joined = record { sh = h.joined.sh; sec = h.joined.sec; party = h.joined.party };
    synced = Synced-preproc nP f g e 1 t.dealer.key_shs t.dealer.pis h.rest ps h.synced;
  }

module _ {ℓ κ} {R : Type ℓ} {G : Type κ} ⦃r : CommRing R⦄ (randomize : G → R × G) (nP : ℕ)
    (whole : Vectors R) where
  abbrev pub tp_products : List R → Tp R G → List (TpShare R) × Tp R G
  unfolding tp_role
  tp_products = products (tp_role randomize)

  abbrev pub party_products : List R → Preparing R G → List (AuthAddShare R) × Preparing R G
  unfolding party_role
  party_products = products (party_role randomize nP)

  -- The parties' shares `xs` of the values `vs`.
  unfoldable pub AllShared :
      List (Preparing R G) → R → (Preparing R G → List (AuthAddShare R)) → List R → Type ℓ
  AllShared ps k xs vs =
      (i : ℕ)
      → i < length vs
      → IsSharing (map (λ p. get_or (xs p) i no_share) ps) k (get_or vs i r.zero)

  pub products-Extends :
      (vs : List R) (t : Tp R G)
      → Dealt t.dealer nP
      → Extends whole (tp_products vs t).1
      → Extends whole t
  unfolding tp_role
  products-Extends [] t h e = e
  products-Extends (v ∷ vs) t h e = tp_share_secret-Extends randomize nP whole t v h (
      products-Extends vs (tp_share_secret randomize v t).1
        (tp_share_secret-Dealt randomize nP whole t v h) e)

  pub products-key : (vs : List R) (t : Tp R G) → (tp_products vs t).1.dealer.key ≡ t.dealer.key
  unfolding tp_role
  products-key [] t = refl
  products-key (v ∷ vs) t =
      products-key vs (tp_share_secret randomize v t).1 ∙ tp_share_secret-key randomize nP whole t v

  pub products-Dealt :
      (vs : List R) (t : Tp R G) → Dealt t.dealer nP → Dealt (tp_products vs t).1.dealer nP
  unfolding tp_role
  products-Dealt [] t h = h
  products-Dealt (v ∷ vs) t h =
      products-Dealt vs (tp_share_secret randomize v t).1
        (tp_share_secret-Dealt randomize nP whole t v h)

  pub products-Joint :
      (vs : List R) (t : Tp R G) (ps : List (Preparing R G))
      → Joint nP whole t ps
      → Extends whole (tp_products vs t).1
      → AllShared ps t.dealer.key (λ p. (party_products vs p).0) vs
        × Joint nP whole (tp_products vs t).1 (map (λ p. (party_products vs p).1) ps)
  unfolding tp_role party_role AllShared
  products-Joint [] t ps h e =
      ((λ i lt. absurd (omega arith)), subst (Joint nP whole t) (sym (map-id ps)) h)
  products-Joint (v ∷ vs) t ps h e =
      let t1 = (tp_share_secret randomize v t).1 in
      let ps1 = map (λ p. (party_share_secret randomize nP p).1) ps in
      let later = products-Extends vs t1 (tp_share_secret-Dealt randomize nP whole t v h.dealt) e in
      let (tp, shared, joint) = share_secret-Joint randomize nP whole t v ps h later in
      let (others, joint') = products-Joint vs t1 ps1 joint e in
      (
        λ i.
            elim i
              as (λ i.
                i < length (v ∷ vs)
                → IsSharing (map (λ p. get_or (party_products (v ∷ vs) p).0 i no_share) ps)
                    t.dealer.key (get_or (v ∷ vs) i r.zero)) [
                      | zero ↦ λ lt. shared
                      | suc j ↦ λ lt.
                          subst (λ xs. IsSharing xs t.dealer.key (get_or vs j r.zero))
                            (map-map _ _ ps)
                            (subst
                              (λ k.
                                IsSharing (map (λ p. get_or (party_products vs p).0 j no_share) ps1)
                                  k (get_or vs j r.zero))
                              (tp_share_secret-key randomize nP whole t v) (others j (omega arith)))
                    ],
        subst (Joint nP whole (tp_products vs t1).1) (map-map _ _ ps) joint',
      )
