-- ===== src/Codec/Laws/GenesisMarshal.antt =====
-- Marshal of the parameters and of the genesis state goes through, in the size that Size says.
use tokenfactory.Base.{
  ◌^◌, ◌<◌, ◌≡◌, refl, ap, ◌∙◌, List, [], ◌∷◌, arith, length, length-append, All,
}
use tokenfactory.Base.Bytes.{Bytes}
use tokenfactory.Base.Outcome.{ok}
use tokenfactory.Env.{Env, Coin}
use tokenfactory.Types.Authority.{DenomAuthorityMetadata}
use tokenfactory.Types.Params.{Params}
use tokenfactory.Types.Genesis.{GenesisDenom, GenesisState}
use tokenfactory.Codec.Varint.{encode_varint}
use tokenfactory.Codec.Authority
use tokenfactory.Codec.Wire.{Wire, WireLaws, IsSmall}
use tokenfactory.Codec.Fields.{
  message_field, string_field, uint64_field, message_size, repeated_size, concat,
}
use tokenfactory.Codec.Genesis.{
  coin_list, marshal_genesis_denom, size_genesis_denom, marshal_params, size_params,
  marshal_genesis_state, size_genesis_state,
}
use tokenfactory.Codec.Laws.Sizes.{length-encode_varint}
use tokenfactory.Codec.Laws.Marshal.{
  bind_ok, length-message_field, length-string_field, length-uint64_field, AreSized,
  repeated_field-sized,
}

-- Marshal of authority metadata writes as many bytes as Size says.
pub length-marshal :
    (m : DenomAuthorityMetadata)
    → Authority.size m < 2 ^ 63
    → length (Authority.marshal m) ≡ Authority.size m
unfolding Authority.marshal Authority.size
length-marshal m fits = ground (
  arith,
  length-append (encode_varint (length m.admin)) m.admin,
  length-encode_varint (length m.admin),
)

genesis_denom-sized :
    (m : GenesisDenom)
    → size_genesis_denom m < 2 ^ 63
    → (b : Bytes) × (marshal_genesis_denom m ≡ ok b) × (length b ≡ size_genesis_denom m)
unfolding marshal_genesis_denom size_genesis_denom message_size
genesis_denom-sized m fits =
    let same = length-marshal m.authority_metadata (omega arith) in
    let all = ap message_size same in
    (
      _,
      refl,
      omega (
        arith,
        length-append (string_field 1 m.denom)
            (concat (message_field 2 (Authority.marshal m.authority_metadata) ∷ [])),
        length-append (message_field 2 (Authority.marshal m.authority_metadata)) [],
        length-string_field 1 m.denom (omega arith),
        length-message_field 2 (Authority.marshal m.authority_metadata) (omega (arith, all)),
        all,
      ),
    )

denoms_sized :
    (ds : List GenesisDenom)
    → repeated_size size_genesis_denom ds < 2 ^ 63
    → AreSized 2 marshal_genesis_denom size_genesis_denom ds
unfolding repeated_size message_size
denoms_sized [] fits = tt
denoms_sized (d ∷ ds) fits = (genesis_denom-sized d (omega arith), denoms_sized ds (omega arith))

module _ (env : Env) (wire : Wire env) (laws : WireLaws env wire) where
  coins_sized :
      (cs : List Coin)
      → All (λ c. IsSmall c.amount) cs
      → AreSized 1 wire.coin_marshal wire.coin_size cs
  coins_sized [] h = tt
  coins_sized (c ∷ cs) (small, h) =
      let (b, e) = laws.coin_written c small in ((b, e, laws.coin_sized c b e), coins_sized cs h)

  params_sized :
      (m : Params)
      → All (λ c. IsSmall c.amount) (coin_list m.denom_creation_fee)
      → m.denom_creation_gas_consume < 2 ^ 64
      → size_params env wire m < 2 ^ 63
      → (b : Bytes) × (marshal_params env wire m ≡ ok b) × (length b ≡ size_params env wire m)
  unfolding marshal_params size_params
  params_sized m small gas fits =
      let (fee, e, l) =
        repeated_field-sized 1 wire.coin_marshal wire.coin_size (coin_list m.denom_creation_fee)
          (coins_sized _ small) (omega arith) in
      (
        _,
        bind_ok _ e,
        omega (
          arith,
          length-append fee (concat (uint64_field 2 m.denom_creation_gas_consume ∷ [])),
          length-append (uint64_field 2 m.denom_creation_gas_consume) [],
          length-uint64_field 2 m.denom_creation_gas_consume gas,
        ),
      )

  -- Marshal of a genesis state whose fee has amounts that are set and small, whose gas is a uint64
  -- and whose size a Go slice can have, returns as many bytes as Size says.
  pub marshal_genesis_state-size_genesis_state :
      (m : GenesisState)
      → All (λ c. IsSmall c.amount) (coin_list m.params.denom_creation_fee)
      → m.params.denom_creation_gas_consume < 2 ^ 64
      → size_genesis_state env wire m < 2 ^ 63
      → (b : Bytes) × (marshal_genesis_state env wire m ≡ ok b)
        × (length b ≡ size_genesis_state env wire m)
  unfolding marshal_genesis_state size_genesis_state message_size
  marshal_genesis_state-size_genesis_state m small gas fits =
      let (denoms, ed, ld) =
        repeated_field-sized 2 marshal_genesis_denom size_genesis_denom m.factory_denoms
          (denoms_sized _ (omega arith)) (omega arith) in
      let (params, ep, lp) = params_sized m.params small gas (omega arith) in
      let same = ap message_size lp in
      (
        _,
        bind_ok _ ed ∙ bind_ok _ ep,
        omega (
          arith,
          length-append (message_field 1 params) (concat (denoms ∷ [])),
          length-append denoms [],
          length-message_field 1 params (omega (arith, same)),
          same,
        ),
      )
