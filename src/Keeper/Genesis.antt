-- ===== src/Keeper/Genesis.antt =====
-- keeper/genesis.go, InitGenesis: the state from a genesis.
pub mod Valid
pub mod Single
pub mod Import
pub mod Init
pub mod RoundTrip
pub mod Onwards
use tokenfactory.Base.{List, [], ◌∷◌, none, some}
use tokenfactory.Base.Outcome.{or_panic}
use tokenfactory.Env.{Env, Coins}
use tokenfactory.Types.Denoms.{deconstruct_denom}
use tokenfactory.Types.Genesis.{GenesisDenom, GenesisState}
use tokenfactory.Keeper.Exec.{pure, lift, panic_on_error, ◌>>=◌, ◌>>◌}
use tokenfactory.Keeper.State.{Action, create_module_account}
use tokenfactory.Keeper.Params.{set_params}
use tokenfactory.Keeper.Admins.{set_authority_metadata}
use tokenfactory.Keeper.CreateDenom.{create_denom_after_validation}

module _ (env : Env) where
  -- `if fee == nil { fee = sdk.NewCoins() }`
  unfoldable pub fee_or_empty : Coins → Action env Coins
  fee_or_empty none = lift (env.new_coins [])
  fee_or_empty (some fee) = pure (some fee)

  -- One round of the loop of `InitGenesis`.
  unfoldable pub init_genesis_denom : GenesisDenom → Action env (Unit {0})
  init_genesis_denom g = do
    (creator, _) ← lift (or_panic (deconstruct_denom env g.denom))
    panic_on_error (create_denom_after_validation env creator g.denom)
    panic_on_error (set_authority_metadata env g.denom g.authority_metadata)

  -- The loop of `InitGenesis`.
  unfoldable pub init_genesis_denoms : List GenesisDenom → Action env (Unit {0})
  init_genesis_denoms [] = pure tt
  init_genesis_denoms (g ∷ gs) = init_genesis_denom g >> init_genesis_denoms gs

  -- InitGenesis
  unfoldable pub init_genesis : GenesisState → Action env (Unit {0})
  unfolding fee_or_empty
  init_genesis gen = do
    create_module_account env
    fee ← fee_or_empty gen.params.denom_creation_fee
    set_params env (record {
      denom_creation_fee = fee;
      denom_creation_gas_consume = gen.params.denom_creation_gas_consume;
    })
    init_genesis_denoms gen.factory_denoms
