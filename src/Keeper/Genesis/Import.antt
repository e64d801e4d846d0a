-- ===== src/Keeper/Genesis/Import.antt =====
-- The import of a valid genesis.
use tokenfactory.Base.{
  ◌≡◌, ◌≢◌, ◌↔◌, ◌⊎◌, refl, sym, ap, subst, ◌∙◌, List, [], ◌∷◌, ◌++◌, false, All, Elem, inl, inr,
  some, map,
}
use tokenfactory.Base.Bytes.{Bytes, contains}
use tokenfactory.Base.Outcome.{Outcome, ok}
use tokenfactory.Env.{Env, StoreLaws, AddressLaws, BankLaws}
use tokenfactory.Types.Keys.{creators_prefix}
use tokenfactory.Types.Keys.Separation.{bar}
use tokenfactory.Types.Denoms.{deconstruct_denom}
use tokenfactory.Types.Genesis.{GenesisDenom}
use tokenfactory.Keeper.Exec.Laws.{>>=-ok}
use tokenfactory.Keeper.State.{State, Known}
use tokenfactory.Keeper.Admins.{get_authority_metadata}
use tokenfactory.Keeper.Admins.Laws.{get_authority_metadata-same_key}
use tokenfactory.Types.Keys.{authority_key}
use tokenfactory.Keeper.Creators.{get_denoms_from_creator}
use tokenfactory.Keeper.Creators.Laws.{get_denoms_from_creator-same_store}
use tokenfactory.Keeper.Invariant.Calls.{Step, Step-trans, Step-chain}
use tokenfactory.Keeper.Genesis.{init_genesis_denom, init_genesis_denoms}
use tokenfactory.Keeper.Genesis.Valid.{
  ImportLaws, IsValidDenom, Distinct, head_others, tail-Distinct, imported, init_genesis_denom_lem,
}
use tokenfactory.Keeper.Genesis.Single.{Adds, imported-Adds}

module _ (env : Env) where
  -- The denom is one of the list, and the SDK's reading of it names the creator.
  pub record Brings (gs : List GenesisDenom) (c e : Bytes) : Type 0 where
    pub entry : GenesisDenom
    pub member : Elem entry gs
    pub names : e ≡ entry.denom
    pub subdenom : Bytes
    pub by : deconstruct_denom env e ≡ ok (c, subdenom)

  -- From `s` to `t` the denoms of the list have come in: the bank knows each, with the authority
  -- metadata of the list; all other authority metadata is as before; the index of a creator has gained
  -- the denoms of the list that are the creator's; the entries of all indices are those of the list or
  -- were there before.
  pub record Imports (s t : State env) (gs : List GenesisDenom) : Type 0 where
    pub step : Step env s t
    pub known : All (λ (g : GenesisDenom). Known env t g.denom) gs
    pub admins :
        All
          (λ (g : GenesisDenom). get_authority_metadata env g.denom t ≡ ok g.authority_metadata)
          gs
    pub others :
        (e : Bytes)
        → All (λ (g : GenesisDenom). g.denom ≢ e) gs
        → get_authority_metadata env e t ≡ get_authority_metadata env e s
    pub index :
        (c e : Bytes)
        → contains bar c ≡ false
        → Elem e (get_denoms_from_creator env c t)
          ↔ (Brings gs c e ⊎ Elem e (get_denoms_from_creator env c s))
    pub entries :
        (k v : Bytes)
        → env.kv_get t.store (creators_prefix ++ k) ≡ some v
        → Elem v (map (λ (g : GenesisDenom). g.denom) gs)
          ⊎ (env.kv_get s.store (creators_prefix ++ k) ≡ some v)

  Imports-nil : (s : State env) → Imports s s []
  Imports-nil s = record {
    step = Step-chain env s s refl (λ d k. k);
    known = tt;
    admins = tt;
    others = λ e h. refl;
    index = λ c e nb. ((λ i. inr i), (λ h. elim h [ inl b ↦ absurd b.member | inr i ↦ i ]));
    entries = λ k v h. inr h;
  }

  Brings-later :
      (g : GenesisDenom) (gs : List GenesisDenom) (c e : Bytes)
      → Brings gs c e
      → Brings (g ∷ gs) c e
  Brings-later g gs c e b = record {
    entry = b.entry;
    member = inr b.member;
    names = b.names;
    subdenom = b.subdenom;
    by = b.by;
  }

  -- The first of the list is brought by its own creator, and the rest by the rest of the list.
  Brings-cases :
      (g : GenesisDenom) (v : IsValidDenom env g) (gs : List GenesisDenom) (c e : Bytes)
      → Brings (g ∷ gs) c e
      → ((v.creator ≡ c) × (g.denom ≡ e)) ⊎ Brings gs c e
  Brings-cases g v gs c e b = elim b.member [
    | inl p ↦
        let q : e ≡ g.denom = b.names ∙ ap (λ (x : GenesisDenom). x.denom) p in
        let here : Outcome (Bytes × Bytes) = ok (v.creator, v.subdenom) in
        let both : here ≡ ok (c, b.subdenom) =
          sym v.parts ∙ ap (deconstruct_denom env) (sym q) ∙ b.by in
        inl (cc, sym q)
    | inr i ↦
        inr (record {
          entry = b.entry;
          member = i;
          names = b.names;
          subdenom = b.subdenom;
          by = b.by;
        })
  ]

  Imports-cons :
      (g : GenesisDenom) (v : IsValidDenom env g) (gs : List GenesisDenom) (s r t : State env)
      → All (λ (x : GenesisDenom). g.denom ≢ x.denom) gs
      → Adds s r v.creator g.denom g.authority_metadata
      → Imports r t gs
      → Imports s t (g ∷ gs)
  Imports-cons g v gs s r t apart one rest = record {
    step = Step-trans env s r t one.step rest.step;
    known = (rest.step.knows g.denom one.known, rest.known);
    admins = (rest.others g.denom (flip gs apart) ∙ one.admin, rest.admins);
    others = λ e h. rest.others e h.1 ∙ one.others e h.0;
    index = λ c e nb.
        let (a, a') = rest.index c e nb in
        let (b, b') = one.index c e nb in
        (
          (λ h. elim (a h) [
            | inl x ↦ inl (Brings-later g gs c e x)
            | inr i ↦ elim (b i) [ inl p ↦ inl (mine c e p) | inr j ↦ inr j ]
          ]),
          (λ h. elim h [
            | inl x ↦ elim (Brings-cases g v gs c e x) [
              | inl p ↦ a' (inr (b' (inl p)))
              | inr y ↦ a' (inl y)
            ]
            | inr j ↦ a' (inr (b' (inr j)))
          ]),
        );
    entries = λ k x h. elim (rest.entries k x h) [
      | inl i ↦ inl (inr i)
      | inr p ↦ elim (one.entries k x p) [ inl q ↦ inl (inl q) | inr q ↦ inr q ]
    ];
  }
    where
      flip :
          (xs : List GenesisDenom)
          → All (λ (x : GenesisDenom). g.denom ≢ x.denom) xs
          → All (λ (x : GenesisDenom). x.denom ≢ g.denom) xs
      flip [] h = tt
      flip (x ∷ xs) (n, h) = ((λ e. n (sym e)), flip xs h)

      mine : (c e : Bytes) → (v.creator ≡ c) × (g.denom ≡ e) → Brings (g ∷ gs) c e
      mine c e (p, q) = record {
        entry = g;
        member = inl refl;
        names = sym q;
        subdenom = v.subdenom;
        by = ap (deconstruct_denom env) (sym q) ∙ v.parts ∙ ap (λ x. ok (x, v.subdenom)) p;
      }

  -- The list comes in alike from a state with the same store that knows no denom less.
  pub Imports-from :
      (stores : StoreLaws env) (s r t : State env) (gs : List GenesisDenom)
      → r.store ≡ s.store
      → Step env s r
      → Imports r t gs
      → Imports s t gs
  Imports-from stores s r t gs same step i = record {
    step = Step-trans env s r t step i.step;
    known = i.known;
    admins = i.admins;
    others = λ e h.
        i.others e h
        ∙ get_authority_metadata-same_key env e s r (ap (λ x. env.kv_get x (authority_key e)) same);
    index = λ c e nb.
        subst (λ ds. Elem e (get_denoms_from_creator env c t) ↔ (Brings gs c e ⊎ Elem e ds))
          (get_denoms_from_creator-same_store {env = env} stores c e s r same) (i.index c e nb);
    entries = λ k v h. elim (i.entries k v h) [
      | inl x ↦ inl x
      | inr y ↦ inr (ap (λ x. env.kv_get x (creators_prefix ++ k)) (sym same) ∙ y)
    ];
  }

module _ {env : Env} (stores : StoreLaws env) (addresses : AddressLaws env) (bank : BankLaws env)
    (laws : ImportLaws env) where
  pub init_genesis_denoms-Imports :
      (met : List Bytes) (gs : List GenesisDenom) (s : State env)
      → All (IsValidDenom env) gs
      → Distinct env met gs
      → (t : State env) × (init_genesis_denoms env gs s ≡ (ok tt, t))
        × Imports env s t gs
        × (env.get_param_set t.chain ≡ env.get_param_set s.chain)
  unfolding init_genesis_denoms
  init_genesis_denoms-Imports met [] s h d = (s, refl, Imports-nil env s, refl)
  init_genesis_denoms-Imports met (g ∷ gs) s (v, vs) d =
      let r = imported env v.creator g s in
      let (t, e, rest, params) =
        init_genesis_denoms-Imports (g.denom ∷ met) gs r vs (tail-Distinct env met g gs d) in
      (
        t,
        >>=-ok (init_genesis_denom env g) _ s (init_genesis_denom_lem env g v s) ∙ e,
        Imports-cons env g v gs s r t (head_others env met g gs d)
            (imported-Adds stores addresses bank laws g v s) rest,
        params ∙ (imported-Adds stores addresses bank laws g v s).params,
      )
