-- ===== src/Module/Laws.antt =====
-- The genesis of the module, as the bytes that the application hands it.
use tokenfactory.Base.{◌≡◌, ap, subst, ◌∙◌, []}
use tokenfactory.Base.Bytes.{Bytes}
use tokenfactory.Base.Outcome
use tokenfactory.Base.Outcome.{
  Outcome, ok, err, panic, or_panic, wrap, wrap-eq-ok, >>=-eq-ok, invalid_json,
}
use tokenfactory.Env.{Env, StoreLaws, AddressLaws, BankLaws}
use tokenfactory.Types.Keys.{module_name}
use tokenfactory.Types.Params.{
  new_params, default_params, default_creation_gas_fee, params_validate,
  validate_denom_creation_fee,
}
use tokenfactory.Types.Genesis.{
  GenesisState, default_genesis, genesis_validate, genesis_denoms_validate,
}
use tokenfactory.Keeper.Exec.{after}
use tokenfactory.Keeper.State.{State}
use tokenfactory.Keeper.Genesis.{init_genesis}
use tokenfactory.Keeper.Genesis.Valid.{ImportLaws}
use tokenfactory.Keeper.Genesis.Import.{Imports}
use tokenfactory.Keeper.Genesis.Init.{init_genesis-genesis_validate}
use tokenfactory.Module.App.{
  JsonCodec, module_default_genesis, module_validate_genesis, module_init_genesis,
}

-- What MarshalJSON writes, UnmarshalJSON reads back.
pub record JsonLaws (cdc : JsonCodec) : Type 0 where
  pub read_back :
      (gs : GenesisState) {bz : Bytes} → cdc.marshal_json gs ≡ ok bz → cdc.unmarshal_json bz ≡ ok gs

or_panic-eq-ok : {A : Type 0} (m : Outcome A) {a : A} → or_panic m ≡ ok a → m ≡ ok a
or_panic-eq-ok (ok b) h = h
or_panic-eq-ok (err e) h = cc
or_panic-eq-ok (panic e) h = cc

default_genesis-valid :
    {env : Env} (laws : ImportLaws env) (gs : GenesisState)
    → default_genesis env ≡ ok gs
    → genesis_validate env gs ≡ ok tt
unfolding default_genesis default_params genesis_validate params_validate
    validate_denom_creation_fee genesis_denoms_validate
default_genesis-valid {env} laws gs h =
    let (c, empty, valid) = laws.new_coins_empty in
    let built : ok (record { params = new_params c default_creation_gas_fee; factory_denoms = [] })
        ≡ ok gs =
      rw empty at h in
    let same = Outcome.ok-injective built in
    subst (λ (x : GenesisState). genesis_validate env x ≡ ok tt) same (rw valid)

-- The default genesis of the module, as it is written, passes the module's own validation.
pub module_validate_genesis-module_default_genesis :
    {env : Env} (laws : ImportLaws env) (cdc : JsonCodec) (json : JsonLaws cdc) (bz : Bytes)
    → module_default_genesis env cdc ≡ ok bz
    → module_validate_genesis env cdc bz ≡ ok tt
unfolding module_default_genesis module_validate_genesis
module_validate_genesis-module_default_genesis {env} laws cdc json bz h =
    let (gs, made, written) = >>=-eq-ok (default_genesis env) _ h in
    let read = json.read_back gs (or_panic-eq-ok (cdc.marshal_json gs) written) in
    rw (read, default_genesis-valid laws gs made)

-- Bytes that ValidateGenesis accepts, InitGenesis imports, where the module account can be had: it does
-- not panic, and it keeps the invariant of the module's state and the denoms that the bank knows.
pub module_init_genesis-module_validate_genesis :
    {env : Env} (stores : StoreLaws env) (addresses : AddressLaws env) (bank : BankLaws env)
    (laws : ImportLaws env) (cdc : JsonCodec) (bz : Bytes) (s : State env)
    → module_validate_genesis env cdc bz ≡ ok tt
    → (env.get_module_account module_name s.chain).0 ≡ ok tt
    → (gen : GenesisState) × (t : State env) × (cdc.unmarshal_json bz ≡ ok gen)
      × (module_init_genesis env cdc bz s ≡ (ok tt, t))
      × Imports env s t gen.factory_denoms
unfolding module_validate_genesis module_init_genesis
module_init_genesis-module_validate_genesis {env} stores addresses bank laws cdc bz s h account =
    let (gen, read, valid) = >>=-eq-ok (wrap invalid_json (cdc.unmarshal_json bz)) _ h in
    let decoded = wrap-eq-ok invalid_json (cdc.unmarshal_json bz) read in
    let (t, e, imports, _) =
      init_genesis-genesis_validate stores addresses bank laws gen s valid account in
    (gen, t, decoded, ap (λ r. after (init_genesis env) (or_panic r, s)) decoded ∙ e, imports)
