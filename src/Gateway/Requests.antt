-- ===== src/Gateway/Requests.antt =====
-- request_Query_… and local_request_Query_…: the call behind each route.
use tokenfactory.Base.{List, none, some}
use tokenfactory.Base.Bytes.{Bytes, text}
use tokenfactory.Base.Outcome
use tokenfactory.Base.Outcome.{Outcome, Error, ok, err, panic, invalid_argument, wrap}
use tokenfactory.Gateway.Runtime.{Runtime, QueryServer, Response, path_param}

-- The outcome of a call with its value put into a response.
unfoldable pub respond : {A M : Type 0} → (A → Response) → Outcome A × M → Outcome Response × M
respond f (ok a, md) = (ok (f a), md)
respond f (err e, md) = (err e, md)
respond f (panic e, md) = (panic e, md)

-- `val, ok = pathParams[name]; if !ok { … }`
unfoldable pub required : Bytes → List (Bytes × Bytes) → Outcome Bytes
unfolding path_param
required name params = elim (path_param name params) [ none ↦ err invalid_argument | some v ↦ ok v ]

module _ (rt : Runtime) where
  -- A parameter of the path, as the string field of a request.
  unfoldable pub string_param : Bytes → List (Bytes × Bytes) → Outcome Bytes
  unfolding required
  string_param name params =
      Outcome.◌>>=◌ (required name params) λ val. wrap invalid_argument (rt.string val)

  -- A request that needs a parameter: an error before the call comes with no metadata.
  unfoldable pub with_param :
      {M : Type 0} → M → Outcome Bytes → (Bytes → Outcome Response × M) → Outcome Response × M
  with_param none_yet (ok v) call = call v
  with_param none_yet (err e) call = (err e, none_yet)
  with_param none_yet (panic e) call = (panic e, none_yet)

  module _ (client : QueryServer rt) (ctx : rt.Context) where
    -- request_Query_Params_0
    unfoldable pub request_query_params : List (Bytes × Bytes) → Outcome Response × rt.Metadata
    unfolding respond
    request_query_params path_params = respond Response.params (client.params ctx tt)

    -- request_Query_DenomAuthorityMetadata_0
    unfoldable pub request_query_denom_authority_metadata :
        List (Bytes × Bytes) → Outcome Response × rt.Metadata
    unfolding respond string_param with_param
    request_query_denom_authority_metadata path_params =
        with_param rt.no_metadata (string_param (text "denom") path_params) λ val.
          respond Response.denom_authority_metadata
            (client.denom_authority_metadata ctx (record { denom = val }))

    -- request_Query_DenomsFromCreator_0
    unfoldable pub request_query_denoms_from_creator :
        List (Bytes × Bytes) → Outcome Response × rt.Metadata
    unfolding respond string_param with_param
    request_query_denoms_from_creator path_params =
        with_param rt.no_metadata (string_param (text "creator") path_params) λ val.
          respond Response.denoms_from_creator
            (client.denoms_from_creator ctx (record { creator = val }))

  -- The local requests return no metadata of their own: what the server has set comes in the
  -- transport stream of the context.
  unfoldable pub local_metadata :
      {A : Type 0} → Outcome A × rt.Metadata → Outcome A × (rt.Metadata × rt.Metadata)
  local_metadata (r, stream) = (r, (rt.no_metadata, stream))

  module _ (server : QueryServer rt) (ctx : rt.Context) where
    -- local_request_Query_Params_0
    unfoldable pub local_request_query_params :
        List (Bytes × Bytes) → Outcome Response × (rt.Metadata × rt.Metadata)
    unfolding respond local_metadata
    local_request_query_params path_params =
        respond Response.params (local_metadata (server.params ctx tt))

    -- local_request_Query_DenomAuthorityMetadata_0
    unfoldable pub local_request_query_denom_authority_metadata :
        List (Bytes × Bytes) → Outcome Response × (rt.Metadata × rt.Metadata)
    unfolding respond string_param with_param local_metadata
    local_request_query_denom_authority_metadata path_params =
        with_param (rt.no_metadata, rt.no_metadata) (string_param (text "denom") path_params)
          λ val.
            respond Response.denom_authority_metadata
              (local_metadata (server.denom_authority_metadata ctx (record { denom = val })))

    -- local_request_Query_DenomsFromCreator_0
    unfoldable pub local_request_query_denoms_from_creator :
        List (Bytes × Bytes) → Outcome Response × (rt.Metadata × rt.Metadata)
    unfolding respond string_param with_param local_metadata
    local_request_query_denoms_from_creator path_params =
        with_param (rt.no_metadata, rt.no_metadata) (string_param (text "creator") path_params)
          λ val.
            respond Response.denoms_from_creator
              (local_metadata (server.denoms_from_creator ctx (record { creator = val })))
