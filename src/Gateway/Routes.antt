-- ===== src/Gateway/Routes.antt =====
-- RegisterQueryHandlerServer and RegisterQueryHandlerClient: the routes and their handlers.
use tokenfactory.Base.{List, [], ◌∷◌}
use tokenfactory.Base.Bytes.{Bytes, text}
use tokenfactory.Base.Outcome.{Outcome, ok, err, panic}
use tokenfactory.Gateway.Runtime.{
  Runtime, QueryServer, Reply, http_error, forward, Response, Pattern,
}
use tokenfactory.Gateway.Requests.{
  request_query_params, request_query_denom_authority_metadata, request_query_denoms_from_creator,
  local_request_query_params, local_request_query_denom_authority_metadata,
  local_request_query_denoms_from_creator,
}

abbrev pub pattern_query_params : Pattern
pattern_query_params = record {
  version = 1;
  ops = 2 ∷ (0 ∷ (2 ∷ (1 ∷ (2 ∷ (2 ∷ (2 ∷ (3 ∷ [])))))));
  pool = text "osmosis" ∷ (text "tokenfactory" ∷ (text "v1beta1" ∷ (text "params" ∷ [])));
  verb = [];
}

abbrev pub pattern_query_denom_authority_metadata : Pattern
pattern_query_denom_authority_metadata = record {
  version = 1;
  ops =
      2
      ∷ (0
          ∷ (2 ∷ (1 ∷ (2 ∷ (2 ∷ (2 ∷ (3 ∷ (1 ∷ (0 ∷ (4 ∷ (1 ∷ (5 ∷ (4 ∷ (2 ∷ (5 ∷ [])))))))))))))));
  pool =
      text "osmosis"
      ∷ (text "tokenfactory"
          ∷ (text "v1beta1" ∷ (text "denoms" ∷ (text "denom" ∷ (text "authority_metadata" ∷ [])))));
  verb = [];
}

abbrev pub pattern_query_denoms_from_creator : Pattern
pattern_query_denoms_from_creator = record {
  version = 1;
  ops = 2 ∷ (0 ∷ (2 ∷ (1 ∷ (2 ∷ (2 ∷ (2 ∷ (3 ∷ (1 ∷ (0 ∷ (4 ∷ (1 ∷ (5 ∷ (4 ∷ [])))))))))))));
  pool =
      text "osmosis"
      ∷ (text "tokenfactory"
          ∷ (text "v1beta1" ∷ (text "denoms_from_creator" ∷ (text "creator" ∷ []))));
  verb = [];
}

module _ (rt : Runtime) where
  -- mux.Handle's arguments; a handler may panic.
  pub record Route : Type 0 where
    pub method : Bytes
    pub pattern_of : Pattern
    pub handler : rt.Request → List (Bytes × Bytes) → Outcome (Reply rt)

  -- How a handler ends, from the outcome of its request and the metadata for the context.
  unfoldable pub reply : rt.Request → Outcome Response → rt.Metadata → Outcome (Reply rt)
  reply req (ok resp) md = ok (forward (rt.new_server_metadata_context req md) resp)
  reply req (err e) md = ok (http_error (rt.new_server_metadata_context req md) e)
  reply req (panic e) md = panic e

  -- `rctx, err := …; if err != nil { runtime.HTTPError(…); return }`
  unfoldable pub in_context :
      rt.Request → Outcome rt.Context → (rt.Context → Outcome (Reply rt)) → Outcome (Reply rt)
  in_context req (ok ctx) k = k ctx
  in_context req (err e) k = ok (http_error (rt.request_context req) e)
  in_context req (panic e) k = panic e

  -- The handlers of RegisterQueryHandlerServer, which differ in the local request alone.
  unfoldable pub server_handler :
      (rt.Context → List (Bytes × Bytes) → Outcome Response × (rt.Metadata × rt.Metadata))
      → rt.Request
      → List (Bytes × Bytes)
      → Outcome (Reply rt)
  unfolding reply in_context
  server_handler local_request req path_params =
      in_context req (rt.annotate_incoming_context req) λ rctx.
        let (resp, md) = local_request rctx path_params in reply req resp (rt.join md.0 md.1)

  -- The handlers of RegisterQueryHandlerClient, which differ in the request alone.
  unfoldable pub client_handler :
      (rt.Context → List (Bytes × Bytes) → Outcome Response × rt.Metadata)
      → rt.Request
      → List (Bytes × Bytes)
      → Outcome (Reply rt)
  unfolding reply in_context
  client_handler request req path_params =
      in_context req (rt.annotate_context req)
        λ rctx. let (resp, md) = request rctx path_params in reply req resp md

  abbrev pub get : Pattern → (rt.Request → List (Bytes × Bytes) → Outcome (Reply rt)) → Route
  get p h = record { method = text "GET"; pattern_of = p; handler = h }

  -- RegisterQueryHandlerServer
  unfoldable pub register_query_handler_server : QueryServer rt → List Route
  unfolding server_handler
  register_query_handler_server server =
      get pattern_query_params (server_handler (local_request_query_params rt server))
      ∷ (get pattern_query_denom_authority_metadata
            (server_handler (local_request_query_denom_authority_metadata rt server))
          ∷ (get pattern_query_denoms_from_creator
                (server_handler (local_request_query_denoms_from_creator rt server))
              ∷ []))

  -- RegisterQueryHandlerClient
  unfoldable pub register_query_handler_client : QueryServer rt → List Route
  unfolding client_handler
  register_query_handler_client client =
      get pattern_query_params (client_handler (request_query_params rt client))
      ∷ (get pattern_query_denom_authority_metadata
            (client_handler (request_query_denom_authority_metadata rt client))
          ∷ (get pattern_query_denoms_from_creator
                (client_handler (request_query_denoms_from_creator rt client))
              ∷ []))
