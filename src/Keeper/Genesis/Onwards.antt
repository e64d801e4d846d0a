-- ===== src/Keeper/Genesis/Onwards.antt =====
-- The chain from its genesis on.
use tokenfactory.Base.{
  ◌≡◌, ◌≢◌, refl, sym, ap, subst, ◌∙◌, List, [], ◌∷◌, ◌++◌, Elem, inl, inr, some,
}
use tokenfactory.Base.Bytes.{Bytes}
use tokenfactory.Base.Outcome.{ok, >>=-eq-ok}
use tokenfactory.Env.{Env, StoreLaws, AddressLaws, BankLaws, DenomLaws}
use tokenfactory.Types.Keys.{creators_prefix, module_name}
use tokenfactory.Types.Keys.Separation.{bar, creators_prefix-creator}
use tokenfactory.Types.Params.{params_validate}
use tokenfactory.Types.Denoms.{deconstruct_denom}
use tokenfactory.Types.Denoms.RoundTrip.{deconstruct_denom-IsFactoryDenom}
use tokenfactory.Types.Genesis.{GenesisDenom, GenesisState, genesis_validate}
use tokenfactory.Keeper.State.{State, Known}
use tokenfactory.Keeper.Creators.{get_denoms_from_creator}
use tokenfactory.Keeper.Creators.Laws.{Elem-get_denoms_from_creator}
use tokenfactory.Keeper.Invariant.{IsWellFormed}
use tokenfactory.Keeper.Invariant.Reach.{Reaches, Reaches-Step}
use tokenfactory.Keeper.Registry.Listed.{IsOf, ListsOwn, Reaches-ListsOwn}
use tokenfactory.Keeper.Genesis.{init_genesis}
use tokenfactory.Keeper.Genesis.Valid.{ImportLaws, IsValidDenom, genesis_denoms_validate_ok}
use tokenfactory.Keeper.Genesis.Import.{Imports, Brings}
use tokenfactory.Keeper.Genesis.Init.{init_genesis-genesis_validate}
use tokenfactory.Keeper.Genesis.RoundTrip.{All-Elem}

module _ (env : Env) where
  -- The denom is known to the bank and listed with the creator that DeconstructDenom reads in it.
  abbrev pub IsAtHome : State env → Bytes → Type 0
  IsAtHome s d =
      Known env s d
      × (c sub : Bytes) × (deconstruct_denom env d ≡ ok (c, sub))
      × Elem d (get_denoms_from_creator env c s)

module _ {env : Env} (stores : StoreLaws env) (addresses : AddressLaws env) where
  -- A denom that a genesis brings to a creator is the creator's own.
  Brings-IsOf : (gs : List GenesisDenom) (c d : Bytes) → Brings env gs c d → IsOf env c d
  Brings-IsOf gs c d b =
      let (c', a, factory, printed) =
        (deconstruct_denom-IsFactoryDenom env d c b.subdenom).0 b.by in
      (
        c',
        b.subdenom,
        a,
        factory.shape,
        factory.address,
        ap env.address_from_bech32 printed ∙ addresses.print c' factory.address,
      )

  -- An import into empty indices lists each creator with denoms of its own.
  Imports-ListsOwn :
      (gs : List GenesisDenom) (s t : State env)
      → ((k v : Bytes) → env.kv_get s.store (creators_prefix ++ k) ≢ some v)
      → Imports env s t gs
      → ListsOwn env t
  Imports-ListsOwn gs s t empty imports = record {
    own = λ c d nb i. elim ((imports.index c d nb).0 i) [
      | inl b ↦ Brings-IsOf gs c d b
      | inr old ↦
          let (v, stored) = (Elem-get_denoms_from_creator stores c d s).0 old in
          absurd (
            empty (c ++ (bar ∷ d)) v
              (ap (env.kv_get s.store) (creators_prefix-creator c d) ∙ stored))
    ];
  }

-- A chain whose module starts in a well-formed state with empty indices, where the module's account can
-- be had, and imports a genesis that Validate lets through: in every state that valid messages and other modules then lead to, the module's state is well-formed,
-- each creator without "|" in its name is listed with denoms of its own alone, and each denom of the
-- genesis is still known to the bank and listed with its creator.
pub Reaches-init_genesis :
    {env : Env} (stores : StoreLaws env) (addresses : AddressLaws env) (bank : BankLaws env)
    (denoms : DenomLaws env) (laws : ImportLaws env) (gen : GenesisState) (s t u : State env)
    → genesis_validate env gen ≡ ok tt
    → (env.get_module_account module_name s.chain).0 ≡ ok tt
    → IsWellFormed env s
    → ((k v : Bytes) → env.kv_get s.store (creators_prefix ++ k) ≢ some v)
    → init_genesis env gen s ≡ (ok tt, t)
    → Reaches env t u
    → IsWellFormed env u
      × ListsOwn env u
      × ((g : GenesisDenom) → Elem g gen.factory_denoms → IsAtHome env u g.denom)
unfolding genesis_validate
Reaches-init_genesis {env} stores addresses bank denoms laws gen s t u valid account well empty h
      r =
    let (t', e, imports', _) =
      init_genesis-genesis_validate stores addresses bank laws gen s valid account in
    let same : t' ≡ t = ap (λ x. x.1) (sym e ∙ h) in
    let imports = subst (λ x. Imports env s x gen.factory_denoms) same imports' in
    let (_, _, checked) = >>=-eq-ok (params_validate env gen.params) _ valid in
    let (valids, _) = genesis_denoms_validate_ok env addresses laws [] gen.factory_denoms checked in
    let onwards = Reaches-Step stores addresses bank denoms r in
    let (own, stay) =
      Reaches-ListsOwn stores addresses bank denoms r
        (Imports-ListsOwn stores addresses gen.factory_denoms s t empty imports) in
    (
      onwards.keeps (imports.step.keeps well),
      own,
      (λ g i.
          let v = All-Elem (IsValidDenom env) g gen.factory_denoms i valids in
          let listed = (imports.index v.creator g.denom v.no_bar).1 (
            inl (record {
              entry = g;
              member = i;
              names = refl;
              subdenom = v.subdenom;
              by = v.parts;
            })) in
          let known =
            All-Elem (λ (x : GenesisDenom). Known env t x.denom) g gen.factory_denoms i
              imports.known in
          (
            onwards.knows g.denom known,
            v.creator,
            v.subdenom,
            v.parts,
            stay v.creator g.denom v.no_bar listed,
          )),
    )
