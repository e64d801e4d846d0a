-- ===== src/Module/App.antt =====
-- module.go: the names, the genesis and the blocks of the module.
use tokenfactory.Base.{ℕ}
use tokenfactory.Base.Bytes.{Bytes}
use tokenfactory.Base.Outcome
use tokenfactory.Base.Outcome.{Outcome, ok, or_panic, wrap, invalid_json}
use tokenfactory.Env.{Env}
use tokenfactory.Types.Keys.{module_name, querier_route}
use tokenfactory.Types.Genesis.{GenesisState, default_genesis, genesis_validate}
use tokenfactory.Keeper.Exec.{lift, pure, ◌>>=◌}
use tokenfactory.Keeper.State.{State, Action}
use tokenfactory.Keeper.Genesis.{init_genesis}
use tokenfactory.Keeper.Export.{export_genesis}

-- codec.JSONCodec for the genesis state
pub record JsonCodec : Type 0 where
  pub marshal_json : GenesisState → Outcome Bytes
  pub unmarshal_json : Bytes → Outcome GenesisState

-- AppModuleBasic.Name and AppModule.Name
abbrev pub name : Bytes
name = module_name

-- AppModule.QuerierRoute
abbrev pub module_querier_route : Bytes
module_querier_route = querier_route

-- ConsensusVersion
abbrev pub consensus_version : ℕ
consensus_version = 1

module _ (env : Env) (cdc : JsonCodec) where
  -- AppModuleBasic.DefaultGenesis
  unfoldable pub module_default_genesis : Outcome Bytes
  module_default_genesis = Outcome.◌>>=◌ (default_genesis env) λ gs. or_panic (cdc.marshal_json gs)

  -- AppModuleBasic.ValidateGenesis
  unfoldable pub module_validate_genesis : Bytes → Outcome (Unit {0})
  module_validate_genesis bz =
      Outcome.◌>>=◌ (wrap invalid_json (cdc.unmarshal_json bz)) λ gs. genesis_validate env gs

  -- AppModule.InitGenesis: it returns no validator updates.
  unfoldable pub module_init_genesis : Bytes → Action env (Unit {0})
  module_init_genesis bz = do
    gen_state ← lift (or_panic (cdc.unmarshal_json bz))
    init_genesis env gen_state

  -- AppModule.ExportGenesis
  unfoldable pub module_export_genesis : State env → Outcome Bytes
  module_export_genesis s =
      Outcome.◌>>=◌ (export_genesis env s) λ gs. or_panic (cdc.marshal_json gs)

module _ (env : Env) where
  -- AppModule.BeginBlock and EndBlock: no work, no validator updates.
  abbrev pub begin_block : Action env (Unit {0})
  begin_block = pure tt

  abbrev pub end_block : Action env (Unit {0})
  end_block = pure tt
