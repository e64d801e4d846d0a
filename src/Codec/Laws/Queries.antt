-- ===== src/Codec/Laws/Queries.antt =====
-- The requests and responses of the queries, and the response to a creation, survive their encoding.
use mathlib.Core.List.{append-nil, append_assoc}
use tokenfactory.Base.{ℕ, ◌^◌, ◌<◌, ◌≡◌, refl, sym, ap, ◌∙◌, List, [], ◌∷◌, ◌++◌, arith, length}
use tokenfactory.Base.Bytes.{Bytes}
use tokenfactory.Base.Outcome.{ok, ok-injective, >>=-eq-ok}
use tokenfactory.Env.{Env}
use tokenfactory.Types.Authority.{DenomAuthorityMetadata, no_admin}
use tokenfactory.Types.Params.{Params}
use tokenfactory.Codec.Authority
use tokenfactory.Codec.Wire.{Wire, WireLaws}
use tokenfactory.Codec.Fields.{repeated_field, string_case}
use tokenfactory.Codec.Messages.{
  MsgCreateDenomResponse, marshal_create_denom_response, unmarshal_create_denom_response,
}
use tokenfactory.Codec.Genesis.{
  append, authority_unmarshal, marshal_params, params_unmarshal, no_params,
}
use tokenfactory.Codec.Queries.{
  QueryDenomAuthorityMetadataRequest, QueryDenomsFromCreatorRequest,
  marshal_denom_authority_metadata_request, unmarshal_denom_authority_metadata_request,
  marshal_denoms_from_creator_request, unmarshal_denoms_from_creator_request,
  marshal_denom_authority_metadata_response, unmarshal_denom_authority_metadata_response,
  marshal_denoms_from_creator_response, unmarshal_denoms_from_creator_response,
  marshal_params_response, unmarshal_params_response,
}
use tokenfactory.Codec.Laws.Decoding.{
  Decodes-nil, Decodes-string, Decodes-message, Decodes-repeated, add_all, ReadsBack,
  unmarshal_into-Decodes,
}
use tokenfactory.Codec.Laws.Genesis.{
  authority_unmarshal-marshal, FeeSurvives, params_unmarshal-marshal_params,
}

pub unmarshal_create_denom_response-marshal_create_denom_response :
    (m : MsgCreateDenomResponse)
    → length (marshal_create_denom_response m) < 2 ^ 63
    → unmarshal_create_denom_response (marshal_create_denom_response m) ≡ ok m
unfolding marshal_create_denom_response unmarshal_create_denom_response
unmarshal_create_denom_response-marshal_create_denom_response m fits =
    unmarshal_into-Decodes _ _ m _ (
      Decodes-string _ _ fits 0 _ m.new_token_denom _ _ m refl (omega arith) refl
        (Decodes-nil _ _ m))

pub unmarshal_denom_authority_metadata_request-marshal_denom_authority_metadata_request :
    (m : QueryDenomAuthorityMetadataRequest)
    → length (marshal_denom_authority_metadata_request m) < 2 ^ 63
    → unmarshal_denom_authority_metadata_request (marshal_denom_authority_metadata_request m) ≡ ok m
unfolding marshal_denom_authority_metadata_request unmarshal_denom_authority_metadata_request
unmarshal_denom_authority_metadata_request-marshal_denom_authority_metadata_request m fits =
    unmarshal_into-Decodes _ _ m _
      (Decodes-string _ _ fits 0 _ m.denom _ _ m refl (omega arith) refl (Decodes-nil _ _ m))

pub unmarshal_denoms_from_creator_request-marshal_denoms_from_creator_request :
    (m : QueryDenomsFromCreatorRequest)
    → length (marshal_denoms_from_creator_request m) < 2 ^ 63
    → unmarshal_denoms_from_creator_request (marshal_denoms_from_creator_request m) ≡ ok m
unfolding marshal_denoms_from_creator_request unmarshal_denoms_from_creator_request
unmarshal_denoms_from_creator_request-marshal_denoms_from_creator_request m fits =
    unmarshal_into-Decodes _ _ m _
      (Decodes-string _ _ fits 0 _ m.creator _ _ m refl (omega arith) refl (Decodes-nil _ _ m))

pub unmarshal_denom_authority_metadata_response-marshal_denom_authority_metadata_response :
    (m : DenomAuthorityMetadata)
    → length (marshal_denom_authority_metadata_response m) < 2 ^ 63
    → unmarshal_denom_authority_metadata_response (marshal_denom_authority_metadata_response m)
      ≡ ok m
unfolding marshal_denom_authority_metadata_response unmarshal_denom_authority_metadata_response
unmarshal_denom_authority_metadata_response-marshal_denom_authority_metadata_response m fits =
    unmarshal_into-Decodes _ no_admin m _ (
      Decodes-message _ _ fits 0 authority_unmarshal (Authority.marshal m) _ no_admin m m refl
        (omega arith) (λ h. authority_unmarshal-marshal m (omega arith)) (Decodes-nil _ _ m))

add_all-append : (ds xs : List Bytes) → add_all append xs ds ≡ xs ++ ds
add_all-append [] xs = sym (append-nil xs)
add_all-append (d ∷ ds) xs = add_all-append ds (append xs d) ∙ append_assoc xs (d ∷ []) ds

denoms-ReadsBack : (l : ℕ) (ds : List Bytes) → ReadsBack l ok (λ m b. ok (append m b)) append ds
denoms-ReadsBack l [] = tt
denoms-ReadsBack l (d ∷ ds) = (
  (λ m b written short. ap (λ t. ok (append m t)) (sym (ok-injective written))),
  denoms-ReadsBack l ds,
)

pub unmarshal_denoms_from_creator_response-marshal_denoms_from_creator_response :
    (m : List Bytes) (bytes : Bytes)
    → marshal_denoms_from_creator_response m ≡ ok bytes
    → length bytes < 2 ^ 63
    → unmarshal_denoms_from_creator_response bytes ≡ ok m
unfolding marshal_denoms_from_creator_response unmarshal_denoms_from_creator_response string_case
unmarshal_denoms_from_creator_response-marshal_denoms_from_creator_response m bytes written fits =
    let (denoms, ed, e) = >>=-eq-ok (repeated_field 1 ok m) _ written in
    let shape = sym (ok-injective e) in
    let fits' = rw shape at fits in
    rw shape (
      unmarshal_into-Decodes _ [] m _ (
        Decodes-repeated _ _ fits' 0 ok (λ m b. ok (append m b)) append m denoms _ [] m refl
          (omega arith) (denoms-ReadsBack _ m) ed (rw (add_all-append m []) (Decodes-nil _ _ m))))

module _ (env : Env) (wire : Wire env) (laws : WireLaws env wire) where
  pub unmarshal_params_response-marshal_params_response :
      (m : Params) (bytes : Bytes)
      → FeeSurvives m.denom_creation_fee
      → m.denom_creation_gas_consume < 2 ^ 64
      → marshal_params_response env wire m ≡ ok bytes
      → length bytes < 2 ^ 63
      → unmarshal_params_response env wire bytes ≡ ok m
  unfolding marshal_params_response unmarshal_params_response
  unmarshal_params_response-marshal_params_response m bytes kept gas written fits =
      let (params, ep, e) = >>=-eq-ok (marshal_params env wire m) _ written in
      let shape = sym (ok-injective e) in
      let fits' = rw shape at fits in
      rw shape (
        unmarshal_into-Decodes _ no_params m _ (
          Decodes-message _ _ fits' 0 (params_unmarshal env wire) params _ no_params m m refl
            (omega arith)
            (λ h. params_unmarshal-marshal_params env wire laws m params kept gas ep (omega arith))
            (Decodes-nil _ _ m)))
