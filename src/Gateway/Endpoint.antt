-- ===== src/Gateway/Endpoint.antt =====
-- RegisterQueryHandler and RegisterQueryHandlerFromEndpoint: the gateway over a connection.
use tokenfactory.Base.{List}
use tokenfactory.Base.Bytes.{Bytes}
use tokenfactory.Keeper.Exec.{Exec, pure, modify, ◌>>=◌, ◌>>◌}
use tokenfactory.Gateway.Runtime.{Runtime, QueryServer}
use tokenfactory.Gateway.Routes.{Route, register_query_handler_client}

-- What gRPC does with connections. `World` holds those that are open.
pub record Connections (rt : Runtime) : Type 1 where
  pub World : Type 0
  pub Conn : Type 0
  -- grpc.Dial
  pub dial : Bytes → Exec World Conn
  -- the goroutine that waits for the end of the context and then calls conn.Close
  pub close_when_done : Conn → World → World
  -- NewQueryClient
  pub new_query_client : Conn → QueryServer rt

module _ {rt : Runtime} (grpc : Connections rt) where
  -- RegisterQueryHandler
  unfoldable pub register_query_handler : grpc.Conn → List (Route rt)
  register_query_handler conn = register_query_handler_client rt (grpc.new_query_client conn)

  -- RegisterQueryHandlerFromEndpoint. Behind the dial nothing returns an error, so the branch that
  -- closes the connection on one is never taken.
  unfoldable pub register_query_handler_from_endpoint : Bytes → Exec grpc.World (List (Route rt))
  unfolding register_query_handler
  register_query_handler_from_endpoint endpoint = do
    conn ← grpc.dial endpoint
    modify (grpc.close_when_done conn)
    pure (register_query_handler conn)
