-- ===== src/Codec/Genesis.antt =====
-- types/params.pb.go and types/genesis.pb.go: Marshal, Size and Unmarshal of the parameters, of a
-- denom of the genesis and of the genesis state.
use tokenfactory.Base.{ℕ, ◌+◌, List, [], ◌∷◌, ◌++◌, none, some, length}
use tokenfactory.Base.Bytes.{Bytes}
use tokenfactory.Base.Outcome.{Outcome, ok, ◌>>=◌}
use tokenfactory.Env.{Env, Coin, Coins}
use tokenfactory.Types.Authority.{DenomAuthorityMetadata, no_admin}
use tokenfactory.Types.Params.{Params}
use tokenfactory.Types.Genesis.{GenesisDenom, GenesisState}
use tokenfactory.Codec.Authority
use tokenfactory.Codec.Authority.{unmarshal_from}
use tokenfactory.Codec.Wire.{Wire, no_coin}
use tokenfactory.Codec.Fields.{
  message_field, string_field, uint64_field, repeated_field, concat, message_size, string_size,
  uint64_size, repeated_size, Case, message_case, string_case, uint64_case, unmarshal_into,
}

-- The coins of a slice, which may be nil.
abbrev pub coin_list : Coins → List Coin
coin_list none = []
coin_list (some cs) = cs

-- `append(cs, c)`
abbrev pub append : {A : Type 0} → List A → A → List A
append xs x = xs ++ (x ∷ [])

-- DenomAuthorityMetadata.Unmarshal into a message that is there.
unfoldable pub authority_unmarshal : DenomAuthorityMetadata → Bytes → Outcome DenomAuthorityMetadata
authority_unmarshal m bytes = unmarshal_from (length bytes) (length bytes) m bytes

-- GenesisDenom
unfoldable pub marshal_genesis_denom : GenesisDenom → Outcome Bytes
marshal_genesis_denom m = ok (
    concat
      (string_field 1 m.denom ∷ (message_field 2 (Authority.marshal m.authority_metadata) ∷ [])))

unfoldable pub size_genesis_denom : GenesisDenom → ℕ
size_genesis_denom m = string_size m.denom + message_size (Authority.size m.authority_metadata)

abbrev pub genesis_denom_cases : List (Case GenesisDenom)
genesis_denom_cases =
    string_case (λ m b. record m { denom = b })
    ∷ (message_case (λ m b. do
      a ← authority_unmarshal m.authority_metadata b
      ok (record m { authority_metadata = a }))
        ∷ [])

-- GenesisDenom{}
abbrev pub no_genesis_denom : GenesisDenom
no_genesis_denom = record { denom = []; authority_metadata = no_admin }

unfoldable pub unmarshal_genesis_denom : Bytes → Outcome GenesisDenom
unmarshal_genesis_denom bytes = unmarshal_into genesis_denom_cases no_genesis_denom bytes

-- Params{}
abbrev pub no_params : Params
no_params = record { denom_creation_fee = none; denom_creation_gas_consume = 0 }

module _ (env : Env) (wire : Wire env) where
  -- Params: the gas is written first, behind the coins.
  unfoldable pub marshal_params : Params → Outcome Bytes
  marshal_params m = do
    fee ← repeated_field 1 wire.coin_marshal (coin_list m.denom_creation_fee)
    ok (concat (fee ∷ (uint64_field 2 m.denom_creation_gas_consume ∷ [])))

  unfoldable pub size_params : Params → ℕ
  size_params m =
      repeated_size wire.coin_size (coin_list m.denom_creation_fee)
      + uint64_size m.denom_creation_gas_consume

  abbrev pub params_cases : List (Case Params)
  params_cases =
      message_case (λ m b. do
        c ← wire.coin_unmarshal no_coin b
        ok (record m { denom_creation_fee = some (append (coin_list m.denom_creation_fee) c) }))
      ∷ (uint64_case (λ m v. record m { denom_creation_gas_consume = v }) ∷ [])

  unfoldable pub params_unmarshal : Params → Bytes → Outcome Params
  params_unmarshal m bytes = unmarshal_into params_cases m bytes

  -- GenesisState: the denoms are written first, from the last on, and the parameters in front.
  unfoldable pub marshal_genesis_state : GenesisState → Outcome Bytes
  marshal_genesis_state m = do
    denoms ← repeated_field 2 marshal_genesis_denom m.factory_denoms
    params ← marshal_params m.params
    ok (concat (message_field 1 params ∷ (denoms ∷ [])))

  unfoldable pub size_genesis_state : GenesisState → ℕ
  size_genesis_state m =
      message_size (size_params m.params) + repeated_size size_genesis_denom m.factory_denoms

  abbrev pub genesis_state_cases : List (Case GenesisState)
  genesis_state_cases =
      message_case (λ m b. do p ← params_unmarshal m.params b; ok (record m { params = p }))
      ∷ (message_case (λ m b. do
        d ← unmarshal_genesis_denom b
        ok (record m { factory_denoms = append m.factory_denoms d }))
          ∷ [])

  unfoldable pub unmarshal_genesis_state : Bytes → Outcome GenesisState
  unmarshal_genesis_state bytes =
      unmarshal_into genesis_state_cases (record { params = no_params; factory_denoms = [] }) bytes
