-- ===== src/Gateway/Served.antt =====
-- The gateway in front of the keeper's own queries, as the module registers them.
use tokenfactory.Base.{◌≡◌, ◌≢◌, refl, sym, List, ◌∷◌, ◌++◌, some, false, arith, subst, ◌∙◌}
use tokenfactory.Base.Bytes.{Bytes, text, contains}
use tokenfactory.Base.Split.{contains-append}
use tokenfactory.Base.Outcome.{Outcome, ok, ok-injective, >>=-eq-ok, wrap-eq-ok, invalid_argument}
use tokenfactory.Env.{Env}
use tokenfactory.Types.Denoms.{
  slash, module_denom_prefix, token_denom, get_token_denom, deconstruct_denom,
}
use tokenfactory.Types.Denoms.RoundTrip.{get_token_denom-WasBuilt, deconstruct_denom-IsFactoryDenom}
use tokenfactory.Keeper.State.{State}
use tokenfactory.Keeper.Query.{
  query_params, query_denom_authority_metadata, query_denoms_from_creator,
}
use tokenfactory.Keeper.Creators.{get_denoms_from_creator}
use tokenfactory.Gateway.Runtime.{Runtime, QueryServer, Reply, forward, Response, path_param}
use tokenfactory.Gateway.Requests.{
  respond, required, string_param, with_param, local_metadata,
  local_request_query_denoms_from_creator,
}
use tokenfactory.Gateway.Routes.{
  reply, in_context, server_handler, pattern_query_denom_authority_metadata,
}
use tokenfactory.Gateway.Laws.{RuntimeLaws, Mux, MuxLaws, single_segments}

module _ (env : Env) (rt : Runtime) (state_of : rt.Context → State env) where
  -- The keeper as QueryServer: it sets no headers.
  unfoldable pub keeper_server : QueryServer rt
  keeper_server = record {
    params = λ ctx req. (query_params env (state_of ctx), rt.no_metadata);
    denom_authority_metadata =
        λ ctx req. (query_denom_authority_metadata env req.denom (state_of ctx), rt.no_metadata);
    denoms_from_creator =
        λ ctx req. (ok (query_denoms_from_creator env req.creator (state_of ctx)), rt.no_metadata);
  }

  module _ (laws : RuntimeLaws rt) (req : rt.Request) (ctx : rt.Context)
      (annotated : rt.annotate_incoming_context req ≡ ok ctx) (path : List (Bytes × Bytes)) where
    string_param_found :
        (name v : Bytes) → path_param name path ≡ some v → string_param rt name path ≡ ok v
    unfolding string_param required
    string_param_found name v h = ground (arith, laws.string_same v)

    abbrev pub answered : Response → Outcome (Reply rt)
    answered r = ok (forward (rt.new_server_metadata_context req rt.no_metadata) r)

    -- The answer to the query for the denoms of a creator.
    pub creator_route :
        (c : Bytes)
        → path_param (text "creator") path ≡ some c
        → server_handler rt (local_request_query_denoms_from_creator rt keeper_server) req path
          ≡ answered (Response.denoms_from_creator (get_denoms_from_creator env c (state_of ctx)))
    unfolding server_handler in_context reply local_request_query_denoms_from_creator with_param
        respond local_metadata keeper_server query_denoms_from_creator
    creator_route c h = rw (annotated, string_param_found (text "creator") c h, laws.join_none)

contains-token_denom : (c s : Bytes) → contains slash (token_denom c s) ≢ false
unfolding token_denom contains
contains-token_denom c s h =
    let (_, tail) = contains-append slash module_denom_prefix (slash ∷ (c ++ (slash ∷ s))) h in cc

required_ok :
    (name : Bytes) (params : List (Bytes × Bytes)) {v : Bytes}
    → required name params ≡ ok v
    → path_param name params ≡ some v
unfolding required
required_ok name params h = ground arith

-- The route for the authority metadata of a denom serves no denom of the module: its pattern captures
-- one segment of the path, and each denom that GetTokenDenom builds or DeconstructDenom takes apart
-- holds slashes. So of no request that matches the pattern does the handler ask the keeper for one.
pub denom_route-never_ours :
    (env : Env) (rt : Runtime) (laws : RuntimeLaws rt) (mux : Mux) (matching : MuxLaws mux)
    (url v : Bytes) {path : List (Bytes × Bytes)}
    → mux.match_path pattern_query_denom_authority_metadata url ≡ some path
    → string_param rt (text "denom") path ≡ ok v
    → ((c s : Bytes) → get_token_denom env c s ≢ ok v)
      × ((x s : Bytes) → deconstruct_denom env v ≢ ok (x, s))
unfolding string_param single_segments
denom_route-never_ours env rt laws mux matching url v {path} matched asked =
    let (u, found, read) = >>=-eq-ok (required (text "denom") path) _ asked in
    let same_text : u ≡ v =
      ok-injective (sym (laws.string_same u) ∙ wrap-eq-ok invalid_argument (rt.string u) read) in
    let plain : contains slash v ≡ false =
      subst (λ x. contains slash x ≡ false) same_text
        (matching.captured pattern_query_denom_authority_metadata url refl matched (text "denom")
          (required_ok (text "denom") path found)) in
    (
      (λ c s built. contains-token_denom c s (
          subst (λ x. contains slash x ≡ false)
            (((get_token_denom-WasBuilt env c s v).0 built).shape) plain)),
      (λ x s taken.
          let (c, a, factory, _) = (deconstruct_denom-IsFactoryDenom env v x s).0 taken in
          contains-token_denom c s (subst (λ x. contains slash x ≡ false) factory.shape plain)),
    )
