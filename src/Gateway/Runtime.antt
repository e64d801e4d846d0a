-- ===== src/Gateway/Runtime.antt =====
-- What the gateway calls of the grpc-gateway runtime and of gRPC.
use tokenfactory.Base.{ℕ, List, [], ◌∷◌, Option, none, some, if◌then◌else◌}
use tokenfactory.Base.Bytes.{Bytes, same}
use tokenfactory.Base.Outcome.{Outcome, Error}
use tokenfactory.Types.Params.{Params}
use tokenfactory.Types.Authority.{DenomAuthorityMetadata}
use tokenfactory.Codec.Queries.{QueryDenomAuthorityMetadataRequest, QueryDenomsFromCreatorRequest}

-- The responses, as the proto.Message that a handler passes on.
pub data Response : Type 0 where
  params : Params → Response
  denom_authority_metadata : DenomAuthorityMetadata → Response
  denoms_from_creator : List Bytes → Response

-- `Metadata` is runtime.ServerMetadata: the headers and trailers of a call.
pub record Runtime : Type 1 where
  pub Context : Type 0
  pub Request : Type 0
  pub Metadata : Type 0
  -- `var metadata runtime.ServerMetadata`
  pub no_metadata : Metadata
  -- metadata.Join of headers and of trailers
  pub join : Metadata → Metadata → Metadata
  -- runtime.AnnotateIncomingContext and AnnotateContext
  pub annotate_incoming_context : Request → Outcome Context
  pub annotate_context : Request → Outcome Context
  -- context.WithCancel(req.Context()), and runtime.NewServerMetadataContext on top of it
  pub request_context : Request → Context
  pub new_server_metadata_context : Request → Metadata → Context
  -- runtime.String
  pub string : Bytes → Outcome Bytes

module _ (rt : Runtime) where
  -- A query answers with a response or an error, and sets headers and trailers beside.
  abbrev pub Call : Type 0 → Type 0 → Type 0
  Call Q A = rt.Context → Q → Outcome A × rt.Metadata

  -- QueryServer and QueryClient, which have the same methods; QueryParamsRequest has no fields.
  pub record QueryServer : Type 0 where
    pub params : Call (Unit {0}) Params
    pub denom_authority_metadata : Call QueryDenomAuthorityMetadataRequest DenomAuthorityMetadata
    pub denoms_from_creator : Call QueryDenomsFromCreatorRequest (List Bytes)

  -- What is written to the http.ResponseWriter: runtime.HTTPError or runtime.ForwardResponseMessage,
  -- with a context that holds the metadata.
  pub data Reply : Type 0 where
    http_error : rt.Context → Error → Reply
    forward : rt.Context → Response → Reply

-- runtime.NewPattern's arguments
pub record Pattern : Type 0 where
  pub version : ℕ
  pub ops : List ℕ
  pub pool : List Bytes
  pub verb : Bytes

-- `pathParams[name]`
unfoldable pub path_param : Bytes → List (Bytes × Bytes) → Option Bytes
path_param name [] = none
path_param name ((n, v) ∷ rest) = if same name n then some v else path_param name rest
