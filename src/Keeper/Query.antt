-- ===== src/Keeper/Query.antt =====
-- keeper/grpc_query.go: the three queries. They read the state and write nothing.
use tokenfactory.Base.{List}
use tokenfactory.Base.Bytes.{Bytes}
use tokenfactory.Base.Outcome.{Outcome}
use tokenfactory.Env.{Env}
use tokenfactory.Types.Params
use tokenfactory.Types.Authority.{DenomAuthorityMetadata}
use tokenfactory.Keeper.State.{State}
use tokenfactory.Keeper.Params.{get_params}
use tokenfactory.Keeper.Admins.{get_authority_metadata}
use tokenfactory.Keeper.Creators.{get_denoms_from_creator}

module _ (env : Env) where
  -- Params
  unfoldable pub query_params : State env → Outcome Params.Params
  query_params s = get_params env s

  -- DenomAuthorityMetadata
  unfoldable pub query_denom_authority_metadata : Bytes → State env → Outcome DenomAuthorityMetadata
  query_denom_authority_metadata denom s = get_authority_metadata env denom s

  -- DenomsFromCreator
  unfoldable pub query_denoms_from_creator : Bytes → State env → List Bytes
  query_denoms_from_creator creator s = get_denoms_from_creator env creator s
