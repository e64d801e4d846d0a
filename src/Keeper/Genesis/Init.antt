-- ===== src/Keeper/Genesis/Init.antt =====
-- InitGenesis of a genesis that Validate has let through.
use tokenfactory.Base.{ℕ, ◌≡◌, refl, ap, ◌∙◌, [], All, none, some}
use tokenfactory.Base.Outcome
use tokenfactory.Base.Outcome.{Outcome, ok, invalid_creation_fee, >>=-eq-ok, wrap-eq-ok}
use tokenfactory.Env.{Env, StoreLaws, AddressLaws, BankLaws, Coins, ParamPair}
use tokenfactory.Types.Keys.{module_name}
use tokenfactory.Types.Params.{
  Params, new_params, params_validate, param_set_pairs, validate_denom_creation_fee,
  validate_denom_creation_gas_consume,
}
use tokenfactory.Types.Genesis.{GenesisState, genesis_validate}
use tokenfactory.Keeper.Exec.Laws.{>>=-ok}
use tokenfactory.Keeper.State.{State, create_module_account}
use tokenfactory.Keeper.Params.{get_params, set_params}
use tokenfactory.Keeper.Invariant.Calls.{Step, Step-chain}
use tokenfactory.Keeper.Genesis.{fee_or_empty, init_genesis}
use tokenfactory.Keeper.Genesis.Valid.{ImportLaws, genesis_denoms_validate_ok}
use tokenfactory.Keeper.Genesis.Import.{Imports, Imports-from, init_genesis_denoms-Imports}

module _ {env : Env} (laws : ImportLaws env) where
  -- The fee that InitGenesis stores: the empty one in place of nil.
  unfoldable pub stored_fee : Coins → Coins
  stored_fee none = laws.new_coins_empty.0
  stored_fee (some fee) = some fee

  fee_or_empty_lem :
      (fee : Coins) (s : State env)
      → env.coins_validate fee ≡ ok tt
      → (fee_or_empty env fee s ≡ (ok (stored_fee fee), s))
        × (env.coins_validate (stored_fee fee) ≡ ok tt)
  unfolding fee_or_empty stored_fee
  fee_or_empty_lem none s h = let (c, e, v) = laws.new_coins_empty in (rw e, v)
  fee_or_empty_lem (some fee) s h = (refl, h)

  pairs_valid :
      (p : Params)
      → env.coins_validate p.denom_creation_fee ≡ ok tt
      → All (λ (q : ParamPair). q.validator q.value ≡ ok tt) (param_set_pairs env p)
  unfolding param_set_pairs validate_denom_creation_fee validate_denom_creation_gas_consume
  pairs_valid p h = (rw h, (refl, tt))

  set_params_ok :
      (p : Params) (s : State env)
      → env.coins_validate p.denom_creation_fee ≡ ok tt
      → set_params env p s
        ≡ (ok tt, record s { chain = (env.set_param_set (param_set_pairs env p) s.chain).1 })
  unfolding set_params
  set_params_ok p s h = rw (laws.set_param_set_ok (param_set_pairs env p) s.chain (pairs_valid p h))

module _ (env : Env) (s : State env) where
  -- The states that InitGenesis passes through before it comes to the denoms.
  abbrev with_account : State env
  with_account = record s { chain = (env.get_module_account module_name s.chain).1 }

  abbrev with_params : Params → State env
  with_params p = record s {
    chain = (env.set_param_set (param_set_pairs env p) with_account.chain).1;
  }

  create_module_account_ok :
      (env.get_module_account module_name s.chain).0 ≡ ok tt
      → create_module_account env s ≡ (ok tt, with_account)
  unfolding create_module_account
  create_module_account_ok h = rw h

  Step-with_params :
      (bank : BankLaws env) (laws : ImportLaws env) (p : Params) → Step env s (with_params p)
  Step-with_params bank laws p = Step-chain env s (with_params p) refl λ d k. (
    k.0,
    laws.get-set_param_set (param_set_pairs env p) with_account.chain d
        ∙ bank.get-get_module_account module_name s.chain d
        ∙ k.1,
  )

-- A genesis that Validate lets through comes in, where the module account can be had: InitGenesis
-- returns, keeps the invariant and the denoms that the bank knows, and brings in the denoms of the
-- genesis, as `Imports` says; GetParams then gives the gas of the genesis and its fee, as a set of coins
-- comes out of the store, the empty one in place of nil.
pub init_genesis-genesis_validate :
    {env : Env} (stores : StoreLaws env) (addresses : AddressLaws env) (bank : BankLaws env)
    (laws : ImportLaws env) (gen : GenesisState) (s : State env)
    → genesis_validate env gen ≡ ok tt
    → (env.get_module_account module_name s.chain).0 ≡ ok tt
    → (t : State env) × (init_genesis env gen s ≡ (ok tt, t))
      × Imports env s t gen.factory_denoms
      × (get_params env t
          ≡ ok (
              new_params
                (laws.stored (stored_fee laws gen.params.denom_creation_fee))
                gen.params.denom_creation_gas_consume))
unfolding genesis_validate params_validate validate_denom_creation_fee init_genesis get_params
init_genesis-genesis_validate {env} stores addresses bank laws gen s valid account =
    let (_, params, denoms) = >>=-eq-ok (params_validate env gen.params) _ valid in
    let fee_valid =
      wrap-eq-ok invalid_creation_fee (env.coins_validate gen.params.denom_creation_fee) params in
    let (vs, distinct) =
      genesis_denoms_validate_ok env addresses laws [] gen.factory_denoms denoms in
    let (fee, stored_valid) =
      fee_or_empty_lem laws gen.params.denom_creation_fee (with_account env s) fee_valid in
    let p =
      new_params (stored_fee laws gen.params.denom_creation_fee)
        gen.params.denom_creation_gas_consume in
    let (t, e, imports, kept) =
      init_genesis_denoms-Imports stores addresses bank laws [] gen.factory_denoms
        (with_params env s p) vs distinct in
    (
      t,
      >>=-ok (create_module_account env) _ s (create_module_account_ok env s account)
          ∙ >>=-ok (fee_or_empty env gen.params.denom_creation_fee) _ (with_account env s) fee
          ∙ >>=-ok (set_params env p) _ (with_account env s)
              (set_params_ok laws p (with_account env s) stored_valid)
          ∙ e,
      Imports-from env stores s (with_params env s p) t gen.factory_denoms refl
          (Step-with_params env s bank laws p) imports,
      ap (λ (o : Outcome (Coins × ℕ)). Outcome.◌>>=◌ o (λ q. ok (new_params q.0 q.1)))
          (kept
            ∙ laws.get_param_set-set_param_set p (with_account env s).chain (
                laws.set_param_set_ok (param_set_pairs env p) (with_account env s).chain
                  (pairs_valid laws p stored_valid))),
    )
