-- ===== src/Module/Basic.antt =====
-- module.go: the commands and the gateway routes of the module.
use tokenfactory.Base.{List}
use tokenfactory.Env.{Env}
use tokenfactory.Client.Cobra.{Cli, Command}
use tokenfactory.Client.Tx.{get_tx_cmd}
use tokenfactory.Client.Query.{get_query_cmd}
use tokenfactory.Gateway.Runtime.{Runtime, QueryServer}
use tokenfactory.Gateway.Routes.{Route, register_query_handler_client}

module _ {env : Env} (cli : Cli env) where
  -- AppModuleBasic.GetTxCmd
  unfoldable pub module_get_tx_cmd : List (Command cli)
  module_get_tx_cmd = get_tx_cmd cli

  -- AppModuleBasic.GetQueryCmd
  unfoldable pub module_get_query_cmd : List (Command cli)
  module_get_query_cmd = get_query_cmd cli

-- AppModuleBasic.RegisterGRPCGatewayRoutes: over NewQueryClient of the client's context. The error that
-- the registration returns, which is nil always, is dropped.
unfoldable pub register_grpc_gateway_routes :
    {Client : Type 0} (rt : Runtime) → (Client → QueryServer rt) → Client → List (Route rt)
register_grpc_gateway_routes rt new_query_client client_ctx =
    register_query_handler_client rt (new_query_client client_ctx)
