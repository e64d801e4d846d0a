-- ===== src/Codec/Queries.antt =====
-- types/query.pb.go: Marshal and Unmarshal of the requests and the responses of the queries. A
-- response of one field stands for its field; QueryParamsRequest holds no field.
use tokenfactory.Base.{List, [], ◌∷◌}
use tokenfactory.Base.Bytes.{Bytes}
use tokenfactory.Base.Outcome.{Outcome, ok, ◌>>=◌}
use tokenfactory.Env.{Env}
use tokenfactory.Types.Authority.{DenomAuthorityMetadata, no_admin}
use tokenfactory.Types.Params.{Params}
use tokenfactory.Codec.Authority
use tokenfactory.Codec.Wire.{Wire}
use tokenfactory.Codec.Fields.{
  message_field, string_field, repeated_field, concat, message_case, string_case, unmarshal_into,
}
use tokenfactory.Codec.Genesis.{
  append, authority_unmarshal, marshal_params, params_unmarshal, no_params,
}

pub record QueryDenomAuthorityMetadataRequest : Type 0 where
  pub denom : Bytes

pub record QueryDenomsFromCreatorRequest : Type 0 where
  pub creator : Bytes

unfoldable pub marshal_denom_authority_metadata_request : QueryDenomAuthorityMetadataRequest → Bytes
marshal_denom_authority_metadata_request m = concat (string_field 1 m.denom ∷ [])

unfoldable pub unmarshal_denom_authority_metadata_request :
    Bytes → Outcome QueryDenomAuthorityMetadataRequest
unmarshal_denom_authority_metadata_request bytes =
    unmarshal_into (string_case (λ m b. record { denom = b }) ∷ []) (record { denom = [] }) bytes

unfoldable pub marshal_denoms_from_creator_request : QueryDenomsFromCreatorRequest → Bytes
marshal_denoms_from_creator_request m = concat (string_field 1 m.creator ∷ [])

unfoldable pub unmarshal_denoms_from_creator_request : Bytes → Outcome QueryDenomsFromCreatorRequest
unmarshal_denoms_from_creator_request bytes =
    unmarshal_into (string_case (λ m b. record { creator = b }) ∷ []) (record { creator = [] })
      bytes

-- QueryDenomAuthorityMetadataResponse
unfoldable pub marshal_denom_authority_metadata_response : DenomAuthorityMetadata → Bytes
marshal_denom_authority_metadata_response m = concat (message_field 1 (Authority.marshal m) ∷ [])

unfoldable pub unmarshal_denom_authority_metadata_response : Bytes → Outcome DenomAuthorityMetadata
unmarshal_denom_authority_metadata_response bytes =
    unmarshal_into (message_case authority_unmarshal ∷ []) no_admin bytes

-- QueryDenomsFromCreatorResponse
unfoldable pub marshal_denoms_from_creator_response : List Bytes → Outcome Bytes
marshal_denoms_from_creator_response m = do
  denoms ← repeated_field 1 ok m
  ok (concat (denoms ∷ []))

unfoldable pub unmarshal_denoms_from_creator_response : Bytes → Outcome (List Bytes)
unmarshal_denoms_from_creator_response bytes = unmarshal_into (string_case append ∷ []) [] bytes

module _ (env : Env) (wire : Wire env) where
  -- QueryParamsResponse
  unfoldable pub marshal_params_response : Params → Outcome Bytes
  marshal_params_response m = do
    params ← marshal_params env wire m
    ok (concat (message_field 1 params ∷ []))

  unfoldable pub unmarshal_params_response : Bytes → Outcome Params
  unmarshal_params_response bytes =
      unmarshal_into (message_case (params_unmarshal env wire) ∷ []) no_params bytes
