-- ===== src/Asterisk/Offline/Sync.antt =====
-- The trusted party and the parties in step: every party has its key share and the trusted party's
-- generator for it, and what the last party has not read is what the trusted party has yet to send.
use qysnc_submission.Common.{
  ℕ, suc, ◌≡◌, refl, sym, ◌∙◌, ap, ap₂, subst, some, List, [], ◌∷◌, ◌++◌, append_assoc, map, length,
}
use mathlib.Core.Logic.{Lift}
use qysnc_submission.Ring.{CommRing}
use qysnc_submission.Ring.Laws.{total}
use qysnc_submission.Sharing.{TpShare, secret}
use qysnc_submission.Asterisk.Offline.Draws.{Dealt, secret-values}
use qysnc_submission.Asterisk.Offline.{Dealer}
use qysnc_submission.Asterisk.Offline.Role.{Tp, Vectors, Preparing}

module _ {ℓ} {A : Type ℓ} where
  pub append_cancel : (xs ys zs : List A) → xs ++ ys ≡ xs ++ zs → ys ≡ zs
  append_cancel [] ys zs e = e
  append_cancel (x ∷ xs) ys zs e = append_cancel xs ys zs (tail e)
    where
      tail : {x y : A} {xs ys : List A} → x ∷ xs ≡ y ∷ ys → xs ≡ ys
      tail e = cc

  -- What is left after `xs`, when `new` follows it.
  pub left_after :
      (xs new rest later whole : List A)
      → xs ++ rest ≡ whole
      → (xs ++ new) ++ later ≡ whole
      → rest ≡ new ++ later
  left_after xs new rest later whole e e' =
      append_cancel xs rest (new ++ later) (e ∙ sym e' ∙ append_assoc xs new later)

pub some_inj {ℓ} : {A : Type ℓ} {a b : A} → some a ≡ some b → a ≡ b
some_inj e = cc

-- Every element of a list.
unfoldable pub Every {ℓ κ} : {A : Type ℓ} → (A → Type κ) → List A → Type κ
Every P [] = Lift {0, _} Unit
Every P (x ∷ xs) = P x × Every P xs

-- What the trusted party keeps of a sharing of `v` among `nP` parties.
pub record IsTp {ℓ} {R : Type ℓ} ⦃r : CommRing R⦄ (nP : ℕ) (x : TpShare R) (v : R) : Type ℓ where
  pub shares : List R
  pub values : x.values ≡ r.zero ∷ shares
  pub size : length shares ≡ nP
  pub sums : total shares ≡ v

pub IsTp-secret {ℓ} :
    {R : Type ℓ} ⦃r : CommRing R⦄ (nP : ℕ) (x : TpShare R) (v : R) → IsTp nP x v → secret x ≡ some v
IsTp-secret nP x v h = secret-values x h.shares h.values ∙ ap some h.sums

pub values-IsTp {ℓ} :
    {R : Type ℓ} ⦃r : CommRing R⦄ (nP : ℕ) (x : TpShare R) (v : R) (xs : List R)
    → x.values ≡ r.zero ∷ xs
    → length xs ≡ nP
    → secret x ≡ some v
    → IsTp nP x v
values-IsTp nP x v xs e size found = record {
  shares = xs;
  values = e;
  size = size;
  sums = some_inj (sym (secret-values x xs e) ∙ found);
}

module _ {κ} {G : Type κ} where
  -- A generator moved on by every party's `step`.
  abbrev pub advance : (ℕ → G → G) → ℕ → List G → List G
  advance step pid [] = []
  advance step pid (g ∷ gs) = step pid g ∷ advance step (suc pid) gs

  pub advance-advance :
      (f step : ℕ → G → G) (pid : ℕ) (gs : List G)
      → advance f pid (advance step pid gs) ≡ advance (λ i g. f i (step i g)) pid gs
  advance-advance f step pid [] = refl
  advance-advance f step pid (g ∷ gs) =
      ap (◌∷◌ (f pid (step pid g))) (advance-advance f step (suc pid) gs)

  pub length-advance :
      (step : ℕ → G → G) (pid : ℕ) (gs : List G) → length (advance step pid gs) ≡ length gs
  length-advance step pid [] = refl
  length-advance step pid (g ∷ gs) = ap suc (length-advance step (suc pid) gs)

module _ {ℓ κ} {R : Type ℓ} {G : Type κ} where
  -- `rest` is what the trusted party, which has sent what is in `t`, has yet to send of `whole`.
  pub record Joined (whole : Vectors R) (t : Tp R G) (rest : Vectors R) : Type ℓ where
    pub sh : t.dealer.rand_sh ++ rest.rand_sh ≡ whole.rand_sh
    pub sec : t.dealer.rand_sh_sec ++ rest.rand_sh_sec ≡ whole.rand_sh_sec
    pub party : t.rand_sh_party ++ rest.rand_sh_party ≡ whole.rand_sh_party

  abbrev pub Extends : Vectors R → Tp R G → Type ℓ
  Extends whole t = (rest : Vectors R) × Joined whole t rest

module _ {ℓ κ} {R : Type ℓ} {G : Type κ} (nP : ℕ) where
  -- The party `pid` of `nP`, with the key share `k` and the generator `g`; the last one has the
  -- vectors.
  pub record Kept (pid : ℕ) (k : R) (g : G) (rest : Vectors R) (p : Preparing R G)
      : Type (ℓ ⊔ κ) where
    pub id : p.id ≡ pid
    pub key : p.key_sh ≡ k
    pub p0 : p.p0 ≡ g
    pub vectors : pid ≡ nP → p.vectors ≡ rest

  unfoldable pub Synced : ℕ → List R → List G → Vectors R → List (Preparing R G) → Type (ℓ ⊔ κ)
  Synced pid [] [] rest [] = Lift {0, _} Unit
  Synced pid (k ∷ ks) (g ∷ gs) rest (p ∷ ps) = Kept pid k g rest p × Synced (suc pid) ks gs rest ps
  Synced pid _ _ rest _ = Lift {0, _} ⊥

  -- Every party takes a step, and so does the trusted party's generator for it.
  pub Synced-next :
      (step : ℕ → G → G) (next : Preparing R G → Preparing R G) (rest rest' : Vectors R)
      → ((pid : ℕ) (k : R) (g : G) (p : Preparing R G)
          → Kept pid k g rest p
          → Kept pid k (step pid g) rest' (next p))
      → (pid : ℕ) (ks : List R) (gs : List G) (ps : List (Preparing R G)) → Synced pid ks gs rest ps
      → Synced pid ks (advance step pid gs) rest' (map next ps)
  unfolding Synced
  Synced-next step next rest rest' f pid [] [] [] h = h
  Synced-next step next rest rest' f pid (k ∷ ks) (g ∷ gs) (p ∷ ps) (here, h) =
      (f pid k g p here, Synced-next step next rest rest' f (suc pid) ks gs ps h)
  Synced-next step next rest rest' f pid [] [] (p ∷ ps) h = absurd h.lower
  Synced-next step next rest rest' f pid [] (g ∷ gs) ps h = absurd h.lower
  Synced-next step next rest rest' f pid (k ∷ ks) [] ps h = absurd h.lower
  Synced-next step next rest rest' f pid (k ∷ ks) (g ∷ gs) [] h = absurd h.lower

  -- What the parties compute, each on its own, is what `all` lists.
  pub Synced-map {ι} :
      {X : Type ι} (f : Preparing R G → X) (one : ℕ → R → G → X)
      (all : ℕ → List R → List G → List X) (rest : Vectors R)
      → ((pid : ℕ) → all pid [] [] ≡ [])
      → ((pid : ℕ) (k : R) (ks : List R) (g : G) (gs : List G)
          → all pid (k ∷ ks) (g ∷ gs) ≡ one pid k g ∷ all (suc pid) ks gs)
      → ((pid : ℕ) (k : R) (g : G) (p : Preparing R G) → Kept pid k g rest p → f p ≡ one pid k g)
      → (pid : ℕ) (ks : List R) (gs : List G) (ps : List (Preparing R G)) → Synced pid ks gs rest ps
      → map f ps ≡ all pid ks gs
  unfolding Synced
  Synced-map f one all rest nil cons e pid [] [] [] h = sym (nil pid)
  Synced-map f one all rest nil cons e pid (k ∷ ks) (g ∷ gs) (p ∷ ps) (here, h) =
      ap₂ ◌∷◌ (e pid k g p here) (Synced-map f one all rest nil cons e (suc pid) ks gs ps h)
      ∙ sym (cons pid k ks g gs)
  Synced-map f one all rest nil cons e pid [] [] (p ∷ ps) h = absurd h.lower
  Synced-map f one all rest nil cons e pid [] (g ∷ gs) ps h = absurd h.lower
  Synced-map f one all rest nil cons e pid (k ∷ ks) [] ps h = absurd h.lower
  Synced-map f one all rest nil cons e pid (k ∷ ks) (g ∷ gs) [] h = absurd h.lower

module _ {ℓ κ} {R : Type ℓ} {G : Type κ} ⦃r : CommRing R⦄ where
  -- All together, with what the trusted party will have sent in the end.
  pub record Joint (nP : ℕ) (whole : Vectors R) (t : Tp R G) (ps : List (Preparing R G))
      : Type (ℓ ⊔ κ) where
    pub dealt : Dealt t.dealer nP
    pub rest : Vectors R
    pub joined : Joined whole t rest
    pub synced : Synced nP 1 t.dealer.key_shs t.dealer.pis rest ps

  -- The generators move, the keys stay.
  pub moved-Dealt :
      (t t' : Dealer R G) (nP : ℕ) (step : ℕ → G → G)
      → Dealt t nP
      → t'.key ≡ t.key
      → t'.key_shs ≡ t.key_shs
      → t'.pis ≡ advance step 1 t.pis
      → Dealt t' nP
  moved-Dealt t t' nP step h ek eks ep =
      let size : length t'.pis ≡ length t.pis = ap length ep ∙ length-advance step 1 t.pis in
      record {
        same = ap length eks ∙ h.same ∙ sym size;
        count = h.count ∙ sym size;
        some_party = h.some_party;
        keyed = ek ∙ h.keyed ∙ sym (ap total eks);
      }

  -- A step of all: the generators move by `step`, the parties by `next`, and the trusted party sends
  -- what the last party reads.
  pub next-Joint :
      (nP : ℕ) (whole : Vectors R) (t t' : Tp R G) (ps : List (Preparing R G)) (step : ℕ → G → G)
      (next : Preparing R G → Preparing R G) (rest rest' : Vectors R) (h : Joint nP whole t ps)
      → h.rest ≡ rest
      → t'.dealer.key ≡ t.dealer.key
      → t'.dealer.key_shs ≡ t.dealer.key_shs
      → t'.dealer.pis ≡ advance step 1 t.dealer.pis
      → Joined whole t' rest'
      → ((pid : ℕ) (k : R) (g : G) (p : Preparing R G)
          → Kept nP pid k g rest p
          → Kept nP pid k (step pid g) rest' (next p))
      → Joint nP whole t' (map next ps)
  next-Joint nP whole t t' ps step next rest rest' h e ek eks ep j f = record {
    dealt = moved-Dealt t.dealer t'.dealer nP step h.dealt ek eks ep;
    rest = rest';
    joined = j;
    synced =
        subst (λ gs. Synced nP 1 t'.dealer.key_shs gs rest' (map next ps)) (sym ep)
          (subst (λ ks. Synced nP 1 ks (advance step 1 t.dealer.pis) rest' (map next ps)) (sym eks)
            (Synced-next nP step next rest rest' f 1 t.dealer.key_shs t.dealer.pis ps
              (subst (λ z. Synced nP 1 t.dealer.key_shs t.dealer.pis z ps) e h.synced)));
  }

pub rest_eq {ℓ} :
    {R : Type ℓ} (rest : Vectors R) (sh sec party : List R)
    → rest.rand_sh ≡ sh
    → rest.rand_sh_sec ≡ sec
    → rest.rand_sh_party ≡ party
    → rest ≡ record { rand_sh = sh; rand_sh_sec = sec; rand_sh_party = party }
rest_eq rest sh sec party e e' e'' = rw (sym e, sym e', sym e'') refl
