-- ===== src/Keeper/Genesis/RoundTrip.antt =====
-- ExportGenesis behind InitGenesis.
use tokenfactory.Base.{
  ◌≡◌, ◌≢◌, ◌↔◌, refl, sym, ap, subst, ◌∙◌, List, [], ◌∷◌, ◌++◌, All, Elem, Elem-map, inl, inr,
  some,
}
use tokenfactory.Base.Bytes.{Bytes}
use tokenfactory.Base.Outcome
use tokenfactory.Base.Outcome.{Outcome, ok, or_panic, >>=-eq-ok}
use tokenfactory.Env.{Env, StoreLaws, AddressLaws, BankLaws}
use tokenfactory.Types.Keys.{creators_prefix, module_name}
use tokenfactory.Types.Keys.Separation.{bar, creators_prefix-creator}
use tokenfactory.Types.Authority.{DenomAuthorityMetadata}
use tokenfactory.Types.Params.{new_params, params_validate}
use tokenfactory.Types.Genesis.{GenesisDenom, GenesisState, genesis_validate}
use tokenfactory.Keeper.State.{State}
use tokenfactory.Keeper.Admins.{get_authority_metadata}
use tokenfactory.Keeper.Creators.{get_all_denoms_iterator}
use tokenfactory.Keeper.Creators.Laws.{Elem-get_denoms_from_creator}
use tokenfactory.Keeper.Export.{export_denoms, export_genesis}
use tokenfactory.Keeper.Invariant.{IsWellFormed}
use tokenfactory.Keeper.Genesis.{init_genesis}
use tokenfactory.Keeper.Genesis.Valid.{ImportLaws, IsValidDenom, genesis_denoms_validate_ok}
use tokenfactory.Keeper.Genesis.Import.{Imports, Brings}
use tokenfactory.Keeper.Genesis.Init.{stored_fee, init_genesis-genesis_validate}

pub All-Elem : {A : Type 0} (P : A → Type 0) (a : A) (xs : List A) → Elem a xs → All P xs → P a
All-Elem P a [] i h = absurd i
All-Elem P a (x ∷ xs) (inl e) (p, h) = subst P (sym e) p
All-Elem P a (x ∷ xs) (inr i) (p, h) = All-Elem P a xs i h

module _ (env : Env) (s : State env) where
  -- An entry of the indices, with the authority metadata of its denom.
  Exported : List (Bytes × Bytes) → GenesisDenom → Type 0
  Exported entries g =
      (k : Bytes) × Elem (k, g.denom) entries
      × (get_authority_metadata env g.denom s ≡ ok g.authority_metadata)

  -- Where all authority metadata can be read, ExportGenesis lists exactly the denoms of the indices,
  -- each with its own.
  export_denoms_lem :
      (entries : List (Bytes × Bytes))
      → ((d : Bytes) → (m : DenomAuthorityMetadata) × (get_authority_metadata env d s ≡ ok m))
      → (gs : List GenesisDenom) × (export_denoms env s entries ≡ ok gs)
        × ((g : GenesisDenom) → Elem g gs ↔ Exported entries g)
  unfolding export_denoms Exported
  export_denoms_lem [] readable = ([], refl, (λ g. ((λ h. absurd h), (λ h. absurd h.1))))
  export_denoms_lem ((key, d) ∷ rest) readable =
      let (gs, e, all) = export_denoms_lem rest readable in
      let (m, read) = readable d in
      (
        record { denom = d; authority_metadata = m } ∷ gs,
        rw (read, e),
        (λ g. (
          (λ i. elim i [
            | inl p ↦ (
              key,
              inl (ap (λ (x : GenesisDenom). (key, x.denom)) p),
              ap (λ (x : GenesisDenom). get_authority_metadata env x.denom s) p
                  ∙ read
                  ∙ ap (λ (x : GenesisDenom). ok x.authority_metadata) (sym p),
            )
            | inr j ↦ let (k, l, q) = (all g).0 j in (k, inr l, q)
          ]),
          (λ x. head_or_rest key d rest gs m read all g x),
        )),
      )
    where
      head_or_rest :
          (key d : Bytes) (rest : List (Bytes × Bytes)) (gs : List GenesisDenom)
          (m : DenomAuthorityMetadata)
          → get_authority_metadata env d s ≡ ok m
          → ((g : GenesisDenom) → Elem g gs ↔ Exported rest g)
          → (g : GenesisDenom) → Exported ((key, d) ∷ rest) g
          → Elem g (record { denom = d; authority_metadata = m } ∷ gs)
      head_or_rest key d rest gs m read all g (k, inl p, q) =
          let same : g.denom ≡ d = ap (λ (x : Bytes × Bytes). x.1) p in
          let same_metadata : g.authority_metadata ≡ m =
            Outcome.ok-injective (sym q ∙ ap (λ x. get_authority_metadata env x s) same ∙ read) in
          inl (cc)
      head_or_rest key d rest gs m read all g (k, inr l, q) = inr ((all g).1 (k, l, q))

module _ {env : Env} (stores : StoreLaws env) (s t : State env) (ds : List GenesisDenom)
    (imports : Imports env s t ds) (g : GenesisDenom) where
  -- What the indices hold behind the import into empty ones came with the import.
  Exported-Elem :
      ((k v : Bytes) → env.kv_get s.store (creators_prefix ++ k) ≢ some v)
      → Exported env t (get_all_denoms_iterator env t) g
      → Elem g ds
  unfolding Exported get_all_denoms_iterator
  Exported-Elem empty (k, i, read) =
      let stored = (stores.elem-iterate creators_prefix k g.denom t.store).0 i in
      elim (imports.entries k g.denom stored) [
        | inl j ↦
            let (x, l, same) = (Elem-map (λ (y : GenesisDenom). y.denom) g.denom ds).0 j in
            let found =
              All-Elem
                (λ (y : GenesisDenom).
                  get_authority_metadata env y.denom t ≡ ok y.authority_metadata)
                x ds l imports.admins in
            let same_metadata : g.authority_metadata ≡ x.authority_metadata =
              Outcome.ok-injective
                (sym read ∙ ap (λ d. get_authority_metadata env d t) same ∙ found) in
            let whole : g ≡ x = cc in subst (λ y. Elem y ds) (sym whole) l
        | inr old ↦ absurd (empty k g.denom old)
      ]

  -- What came with the import stands in the index of its creator.
  Elem-Exported :
      IsWellFormed env t
      → All (IsValidDenom env) ds
      → Elem g ds
      → Exported env t (get_all_denoms_iterator env t) g
  unfolding Exported get_all_denoms_iterator
  Elem-Exported well valids i =
      let v = All-Elem (IsValidDenom env) g ds i valids in
      let brought : Brings env ds v.creator g.denom = record {
        entry = g;
        member = i;
        names = refl;
        subdenom = v.subdenom;
        by = v.parts;
      } in
      let (x, stored) =
        (Elem-get_denoms_from_creator stores v.creator g.denom t).0
          ((imports.index v.creator g.denom v.no_bar).1 (inl brought)) in
      let (same, _) = well.indexed v.creator g.denom x v.no_bar stored in
      (
        v.creator ++ (bar ∷ g.denom),
        (stores.elem-iterate creators_prefix (v.creator ++ (bar ∷ g.denom)) g.denom t.store).1 (
            ap (env.kv_get t.store) (creators_prefix-creator v.creator g.denom)
            ∙ stored
            ∙ ap some same),
        All-Elem
            (λ (y : GenesisDenom). get_authority_metadata env y.denom t ≡ ok y.authority_metadata) g
            ds i imports.admins,
      )

-- Into a well-formed state whose indices are empty, where the module's account can be had, a genesis that
-- Validate lets through comes in, and ExportGenesis then gives a genesis back with the same denoms, each with its authority metadata, no fewer and no
-- more, and with the parameters that were stored; the order of the denoms is left open.
pub export_genesis-init_genesis :
    {env : Env} (stores : StoreLaws env) (addresses : AddressLaws env) (bank : BankLaws env)
    (laws : ImportLaws env) (gen : GenesisState) (s : State env)
    → genesis_validate env gen ≡ ok tt
    → (env.get_module_account module_name s.chain).0 ≡ ok tt
    → IsWellFormed env s
    → ((k v : Bytes) → env.kv_get s.store (creators_prefix ++ k) ≢ some v)
    → (t : State env) × (out : GenesisState) × (init_genesis env gen s ≡ (ok tt, t))
      × (export_genesis env t ≡ ok out)
      × ((g : GenesisDenom) → Elem g out.factory_denoms ↔ Elem g gen.factory_denoms)
      × (out.params
          ≡ new_params
              (laws.stored (stored_fee laws gen.params.denom_creation_fee))
              gen.params.denom_creation_gas_consume)
unfolding export_genesis genesis_validate
export_genesis-init_genesis {env} stores addresses bank laws gen s valid account well empty =
    let (t, e, imports, params) =
      init_genesis-genesis_validate stores addresses bank laws gen s valid account in
    let (_, _, denoms) = >>=-eq-ok (params_validate env gen.params) _ valid in
    let (valids, _) = genesis_denoms_validate_ok env addresses laws [] gen.factory_denoms denoms in
    let after_import = imports.step.keeps well in
    let (gs, exported, all) =
      export_denoms_lem env t (get_all_denoms_iterator env t)
        (λ d. let (m, read, _) = after_import.readable d in (m, read)) in
    (
      t,
      record {
        params =
            new_params (laws.stored (stored_fee laws gen.params.denom_creation_fee))
              gen.params.denom_creation_gas_consume;
        factory_denoms = gs;
      },
      e,
      rw (exported, params) refl,
      (λ g. (
        (λ i. Exported-Elem stores s t gen.factory_denoms imports g empty ((all g).0 i)),
        (λ i.
            (all g).1
              (Elem-Exported stores s t gen.factory_denoms imports g after_import valids i)),
      )),
      refl,
    )
