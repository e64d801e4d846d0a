-- ===== src/Codec/Laws/GenesisTotal.antt =====
-- Unmarshal of the parameters and of the genesis state ends on every input.
use tokenfactory.Base.{◌≡◌, ◌⊎◌, arith}
use tokenfactory.Base.Bytes.{Bytes}
use tokenfactory.Base.Outcome.{Error, ok, err}
use tokenfactory.Env.{Env}
use tokenfactory.Types.Authority.{DenomAuthorityMetadata}
use tokenfactory.Types.Params.{Params}
use tokenfactory.Types.Genesis.{GenesisState}
use tokenfactory.Codec.Wire.{Wire, WireLaws, no_coin}
use tokenfactory.Codec.Genesis.{
  authority_unmarshal, genesis_denom_cases, unmarshal_genesis_denom, params_cases, params_unmarshal,
  genesis_state_cases, unmarshal_genesis_state,
}
use tokenfactory.Codec.Laws.Total.{Ends-ok_or_err, unmarshal_from-Ends}
use tokenfactory.Codec.Laws.MessagesTotal.{
  Returns, Returns-of, Returns-then, message_case-Ends, string_case-Ends, uint64_case-Ends,
  unmarshal_into-Ends,
}

authority_unmarshal-Ends :
    (m : DenomAuthorityMetadata) (bytes : Bytes) → Returns (authority_unmarshal m bytes)
unfolding authority_unmarshal
authority_unmarshal-Ends m bytes = unmarshal_from-Ends _ _ m bytes (omega arith)

genesis_denom-Ends : (bytes : Bytes) → Returns (unmarshal_genesis_denom bytes)
unfolding unmarshal_genesis_denom
genesis_denom-Ends bytes = unmarshal_into-Ends genesis_denom_cases _ bytes (
  string_case-Ends _,
  (
    message_case-Ends _ (λ m b. Returns-then _ _ (authority_unmarshal-Ends m.authority_metadata b)),
    tt,
  ),
)

module _ (env : Env) (wire : Wire env) (laws : WireLaws env wire) where
  params-Ends : (m : Params) (bytes : Bytes) → Returns (params_unmarshal env wire m bytes)
  unfolding params_unmarshal
  params-Ends m bytes = unmarshal_into-Ends (params_cases env wire) m bytes (
    message_case-Ends _ (λ m b. Returns-then _ _ (Returns-of _ (laws.coin_ends no_coin b))),
    (uint64_case-Ends _, tt),
  )

  genesis_state-Ends : (bytes : Bytes) → Returns (unmarshal_genesis_state env wire bytes)
  unfolding unmarshal_genesis_state
  genesis_state-Ends bytes = unmarshal_into-Ends (genesis_state_cases env wire) _ bytes (
    message_case-Ends _ (λ m b. Returns-then _ _ (params-Ends m.params b)),
    (message_case-Ends _ (λ m b. Returns-then _ _ (genesis_denom-Ends b)), tt),
  )

  -- Unmarshal of a genesis state returns a state or an error on every input of bytes.
  pub unmarshal_genesis_state_total :
      (bytes : Bytes)
      → ((m : GenesisState) × (unmarshal_genesis_state env wire bytes ≡ ok m))
        ⊎ ((e : Error) × (unmarshal_genesis_state env wire bytes ≡ err e))
  unmarshal_genesis_state_total bytes = Ends-ok_or_err _ (genesis_state-Ends bytes)
