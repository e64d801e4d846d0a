-- ===== src/Keeper/Export.antt =====
-- keeper/genesis.go, ExportGenesis: a genesis from the state.
use tokenfactory.Base.{List, [], ◌∷◌}
use tokenfactory.Base.Bytes.{Bytes}
use tokenfactory.Base.Outcome.{Outcome, ok, or_panic, ◌>>=◌}
use tokenfactory.Env.{Env}
use tokenfactory.Types.Genesis.{GenesisDenom, GenesisState}
use tokenfactory.Keeper.State.{State}
use tokenfactory.Keeper.Params.{get_params}
use tokenfactory.Keeper.Admins.{get_authority_metadata}
use tokenfactory.Keeper.Creators.{get_all_denoms_iterator}

module _ (env : Env) where
  -- The loop of `ExportGenesis`, over what the iterator visits: it reads the state alone.
  unfoldable pub export_denoms : State env → List (Bytes × Bytes) → Outcome (List GenesisDenom)
  export_denoms s [] = ok []
  export_denoms s ((key, denom) ∷ rest) = do
    metadata ← or_panic (get_authority_metadata env denom s)
    gs ← export_denoms s rest
    ok (record { denom = denom; authority_metadata = metadata } ∷ gs)

  -- ExportGenesis
  unfoldable pub export_genesis : State env → Outcome GenesisState
  unfolding export_denoms
  export_genesis s = do
    gs ← export_denoms s (get_all_denoms_iterator env s)
    params ← get_params env s
    ok (record { params = params; factory_denoms = gs })
