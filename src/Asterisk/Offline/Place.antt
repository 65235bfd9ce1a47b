-- ===== src/Asterisk/Offline/Place.antt =====
-- What the entry of a gate's output holds, at the trusted party and at every party, once the gate is
-- prepared.
use qysnc_submission.Common.{
  ℕ, ◌<◌, ◌≡◌, refl, sym, ◌∙◌, ap, ap₂, subst, List, [], ◌∷◌, map, length, get_or, set,
  get_or-set_self,
}
use mathlib.Core.Logic.{Lift}
use qysnc_submission.Ring.{CommRing}
use qysnc_submission.Sharing.{AuthAddShare, TpShare}
use qysnc_submission.Asterisk.{PreprocGate, preproc_gate, mask, Party, no_share, preproc_at}
use qysnc_submission.Asterisk.Shared.{IsSharing, Shared, Everyone}
use qysnc_submission.Asterisk.Offline.Role.{
  Tp, Vectors, Preparing, tp_share, party_share, tp_role, party_role,
}
use qysnc_submission.Asterisk.Offline.Sync.{IsTp, Every, Extends, Joint}
use qysnc_submission.Asterisk.Offline.Keeps.{products_keep, party_role-Keeps, tp_role-Keeps}
use qysnc_submission.Asterisk.Offline.Calls.{tp_share-Dealt, share-Joint, tp_share-key}
use qysnc_submission.Asterisk.Offline.Together.{
  map-map, put-Joint, tp_products, party_products, AllShared, products-Extends, products-Joint,
  products-key,
}

pub Every-map {ι κ κ'} :
    {A : Type ι} (P : A → Type κ) (Q : A → Type κ') (xs : List A)
    → ((x : A) → P x → Q x)
    → Every P xs
    → Every Q xs
unfolding Every
Every-map P Q [] f h = record { lower = tt }
Every-map P Q (x ∷ xs) f (here, h) = (f x here, Every-map P Q xs f h)

pub trivial {ι κ} : {A : Type ι} (xs : List A) → Every (λ (x : A). Lift {0, κ} Unit) xs
unfolding Every
trivial [] = record { lower = tt }
trivial (x ∷ xs) = (record { lower = tt }, trivial xs)

pub Every-both {ι κ κ' κ''} :
    {A : Type ι} (P : A → Type κ) (P' : A → Type κ') (Q : A → Type κ'') (xs : List A)
    → ((x : A) → P x → P' x → Q x)
    → Every P xs
    → Every P' xs
    → Every Q xs
unfolding Every
Every-both P P' Q [] f h h' = record { lower = tt }
Every-both P P' Q (x ∷ xs) f (here, h) (here', h') = (f x here here', Every-both P P' Q xs f h h')

pub map-Every {ι ι'} :
    {A : Type ι} {B : Type ι'} (f g : A → B) (xs : List A)
    → Every (λ x. f x ≡ g x) xs
    → map f xs ≡ map g xs
unfolding Every
map-Every f g [] h = refl
map-Every f g (x ∷ xs) (here, h) = ap₂ ◌∷◌ here (map-Every f g xs h)

pub map-same {ι ι'} :
    {A : Type ι} {B : Type ι'} (f g : A → B) (xs : List A)
    → ((x : A) → f x ≡ g x)
    → map f xs ≡ map g xs
map-same f g [] h = refl
map-same f g (x ∷ xs) h = ap₂ ◌∷◌ (h x) (map-same f g xs h)

module _ {ℓ κ} {R : Type ℓ} {G : Type κ} ⦃r : CommRing R⦄ where
  -- What the party takes to the online phase.
  abbrev pub party_of : Preparing R G → Party R
  party_of p = record { id = p.id; preproc = p.preproc; wires = [] }

  abbrev pub entry : Preparing R G → ℕ → PreprocGate R (AuthAddShare R)
  entry p o = get_or p.preproc o (preproc_gate no_share)

  -- The parties, each taken on by `fin`, share what their entries hold.
  pub entry-Shared :
      (ps : List (Preparing R G)) (fin : Preparing R G → Preparing R G)
      (x : Preparing R G → PreprocGate R (AuthAddShare R)) (o : ℕ) (k v : R)
      (f : Party R → AuthAddShare R) (j : PreprocGate R (AuthAddShare R) → AuthAddShare R)
      → Every (λ p. entry (fin p) o ≡ x p) ps
      → ((p : Preparing R G) → f (party_of p) ≡ j (entry p o))
      → IsSharing (map (λ p. j (x p)) ps) k v
      → Shared (map (λ p. party_of (fin p)) ps) k f v
  entry-Shared ps fin x o k v f j placed e h = record {
    shares =
        subst (λ xs. IsSharing xs k v)
          (sym (
            map-map f (λ p. party_of (fin p)) ps
            ∙ map-Every _ _ ps (Every-map _ _ ps (λ p here. e (fin p) ∙ ap j here) placed)))
          h;
  }

  pub entry-Everyone :
      (P : PreprocGate R (AuthAddShare R) → Type ℓ) (ps : List (Preparing R G))
      (fin : Preparing R G → Preparing R G) (x : Preparing R G → PreprocGate R (AuthAddShare R))
      (o : ℕ)
      → Every (λ p. entry (fin p) o ≡ x p) ps
      → ((p : Preparing R G) → P (x p))
      → Everyone (λ q. P (preproc_at q o)) (map (λ p. party_of (fin p)) ps)
  unfolding Every
  entry-Everyone P [] fin x o placed h = record { lower = tt }
  entry-Everyone P (p ∷ ps) fin x o (here, placed) h =
      (subst P (sym here) (h p), entry-Everyone P ps fin x o placed h)

module _ {ℓ κ} {R : Type ℓ} {G : Type κ} ⦃r : CommRing R⦄ (randomize : G → R × G) (nP n : ℕ)
    (whole : Vectors R) (t : Tp R G) (ps : List (Preparing R G)) where
  -- The entries are there to write.
  pub record Sized : Type (ℓ ⊔ κ) where
    pub tp : length t.preproc ≡ n
    pub parties : Every (λ p. length p.preproc ≡ n) ps

  -- The trusted party after a gate with products `vs`, which stores `store`.
  abbrev pub tp_after :
      List R → ℕ → (TpShare R → List (TpShare R) → PreprocGate R (TpShare R)) → Tp R G
  tp_after vs o build =
      let call = tp_share randomize t in
      let rest = tp_products randomize nP whole vs call.1 in
      record rest.1 { preproc = set rest.1.preproc o (build call.0 rest.0) }

  abbrev pub party_entry :
      List R
      → (AuthAddShare R → List (AuthAddShare R) → PreprocGate R (AuthAddShare R))
      → Preparing R G
      → PreprocGate R (AuthAddShare R)
  party_entry vs build p =
      let call = party_share randomize nP p in
      build call.0 (party_products randomize nP whole vs call.1).0

  abbrev pub party_after :
      List R
      → ℕ
      → (AuthAddShare R → List (AuthAddShare R) → PreprocGate R (AuthAddShare R))
      → Preparing R G
      → Preparing R G
  party_after vs o build p =
      let call = party_share randomize nP p in
      let rest = party_products randomize nP whole vs call.1 in
      record rest.1 { preproc = set rest.1.preproc o (build call.0 rest.0) }

  -- An entry that is written.
  pub tp_written :
      (o : ℕ) (t' : Tp R G) (x : PreprocGate R (TpShare R)) (dflt : PreprocGate R (TpShare R))
      → o < n
      → length t.preproc ≡ n
      → t'.preproc ≡ t.preproc
      → get_or (set t'.preproc o x) o dflt ≡ x
  tp_written o t' x dflt lt size e =
      get_or-set_self t'.preproc o x dflt (subst (λ m. o < m) (sym (ap length e ∙ size)) lt)

  pub parties_written :
      (o : ℕ) (next : Preparing R G → Preparing R G)
      (x : Preparing R G → PreprocGate R (AuthAddShare R))
      → o < n
      → Every (λ p. length p.preproc ≡ n) ps
      → ((p : Preparing R G) → (next p).preproc ≡ set p.preproc o (x p))
      → Every (λ p. entry (next p) o ≡ x p) ps
  parties_written o next x lt sizes e =
      Every-map _ _ ps
        (λ p size.
          ap (λ gates. get_or gates o (preproc_gate no_share)) (e p)
          ∙ get_or-set_self p.preproc o (x p) (preproc_gate no_share)
              (subst (λ m. o < m) (sym size) lt))
        sizes

  pub with_gates-Extends :
      (t' : Tp R G) (gates : List (PreprocGate R (TpShare R)))
      → Extends whole (record t' { preproc = gates })
      → Extends whole t'
  with_gates-Extends t' gates (rest, j) = (rest, record { sh = j.sh; sec = j.sec; party = j.party })

  -- A gate with products is prepared.
  pub record ProductsPrepared (vs : List R) (o : ℕ)
      (build_tp : TpShare R → List (TpShare R) → PreprocGate R (TpShare R))
      (build : AuthAddShare R → List (AuthAddShare R) → PreprocGate R (AuthAddShare R))
      : Type (ℓ ⊔ κ) where
    pub joint : Joint nP whole (tp_after vs o build_tp) (map (party_after vs o build) ps)
    pub placed : Every (λ p. entry (party_after vs o build p) o ≡ party_entry vs build p) ps
    pub value : R
    pub tp :
        (dflt : PreprocGate R (TpShare R))
        → IsTp nP (mask (get_or (tp_after vs o build_tp).preproc o dflt)) value
    pub shared : IsSharing (map (λ p. (party_share randomize nP p).0) ps) t.dealer.key value
    pub key : (tp_after vs o build_tp).dealer.key ≡ t.dealer.key
    pub products :
        AllShared randomize nP whole ps t.dealer.key
          (λ p. (party_products randomize nP whole vs (party_share randomize nP p).1).0)
          vs

  pub gate-ProductsPrepared :
      (vs : List R) (o : ℕ) (build_tp : TpShare R → List (TpShare R) → PreprocGate R (TpShare R))
      (build : AuthAddShare R → List (AuthAddShare R) → PreprocGate R (AuthAddShare R))
      → ((x : TpShare R) (xs : List (TpShare R)) → mask (build_tp x xs) ≡ x)
      → o < n
      → Sized
      → Joint nP whole t ps
      → Extends whole (tp_after vs o build_tp)
      → ProductsPrepared vs o build_tp build
  unfolding AllShared tp_role party_role
  gate-ProductsPrepared vs o build_tp build masks lt sized h e =
      let t1 = (tp_share randomize t).1 in
      let ps1 = map (λ p. (party_share randomize nP p).1) ps in
      let e2 = with_gates-Extends (tp_products randomize nP whole vs t1).1 _ e in
      let e1 =
        products-Extends randomize nP whole vs t1 (tp_share-Dealt randomize nP whole t h.dealt)
          e2 in
      let (v, tp, shared, joint) = share-Joint randomize nP whole t ps h e1 in
      let (all, joint') = products-Joint randomize nP whole vs t1 ps1 joint e2 in
      record {
        joint =
            put-Joint nP whole (tp_products randomize nP whole vs t1).1 ps _
              (λ p. (party_products randomize nP whole vs (party_share randomize nP p).1).1)
              (party_after vs o build) (λ p. refl)
              (subst (Joint nP whole (tp_products randomize nP whole vs t1).1) (map-map _ _ ps)
                joint');
        placed =
            parties_written o (party_after vs o build) (party_entry vs build) lt sized.parties (λ p.
              ap (λ gates. set gates o (party_entry vs build p))
                (products_keep (party_role randomize nP) (party_role-Keeps randomize nP) vs
                  (party_share randomize nP p).1));
        value = v;
        tp = λ dflt.
            subst (λ x. IsTp nP x v)
              (sym (
                ap mask (
                  tp_written o (tp_products randomize nP whole vs t1).1
                    (build_tp (tp_share randomize t).0 (tp_products randomize nP whole vs t1).0)
                    dflt lt sized.tp
                    (products_keep (tp_role randomize) (tp_role-Keeps randomize) vs t1))
                ∙ masks (tp_share randomize t).0 (tp_products randomize nP whole vs t1).0))
              tp;
        shared = shared;
        key = products-key randomize nP whole vs t1 ∙ tp_share-key randomize nP whole t;
        products = λ i le.
            subst
              (λ k.
                IsSharing
                  (map
                    (λ p.
                      get_or (party_products randomize nP whole vs (party_share randomize nP p).1).0
                        i no_share)
                    ps)
                  k (get_or vs i r.zero))
              (tp_share-key randomize nP whole t)
              (subst (λ xs. IsSharing xs t1.dealer.key (get_or vs i r.zero)) (map-map _ _ ps)
                (all i le));
      }
