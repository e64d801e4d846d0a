-- ===== src/Codec/Messages.antt =====
-- types/tx.pb.go: Marshal, Size and Unmarshal of the six messages and of their responses. The other
-- responses hold no field.
use tokenfactory.Base.{ℕ, ◌+◌, List, [], ◌∷◌}
use tokenfactory.Base.Bytes.{Bytes}
use tokenfactory.Base.Outcome.{Outcome, ok, ◌>>=◌}
use tokenfactory.Env.{Env}
use tokenfactory.Types.Messages.{
  MsgCreateDenom, MsgMint, MsgBurn, MsgForceTransfer, MsgChangeAdmin, MsgSetDenomMetadata,
}
use tokenfactory.Codec.Wire.{Wire, no_coin}
use tokenfactory.Codec.Fields.{
  message_field, string_field, concat, message_size, string_size, Case, message_case, string_case,
  unmarshal_into,
}

-- MsgCreateDenom
unfoldable pub marshal_create_denom : MsgCreateDenom → Bytes
marshal_create_denom m = concat (string_field 1 m.sender ∷ (string_field 2 m.subdenom ∷ []))

unfoldable pub size_create_denom : MsgCreateDenom → ℕ
size_create_denom m = string_size m.sender + string_size m.subdenom

abbrev pub create_denom_cases : List (Case MsgCreateDenom)
create_denom_cases =
    string_case (λ m b. record m { sender = b })
    ∷ (string_case (λ m b. record m { subdenom = b }) ∷ [])

unfoldable pub unmarshal_create_denom : Bytes → Outcome MsgCreateDenom
unmarshal_create_denom bytes =
    unmarshal_into create_denom_cases (record { sender = []; subdenom = [] }) bytes

-- MsgCreateDenomResponse
pub record MsgCreateDenomResponse : Type 0 where
  pub new_token_denom : Bytes

unfoldable pub marshal_create_denom_response : MsgCreateDenomResponse → Bytes
marshal_create_denom_response m = concat (string_field 1 m.new_token_denom ∷ [])

unfoldable pub unmarshal_create_denom_response : Bytes → Outcome MsgCreateDenomResponse
unmarshal_create_denom_response bytes =
    unmarshal_into (string_case (λ m b. record m { new_token_denom = b }) ∷ [])
      (record { new_token_denom = [] }) bytes

-- MsgChangeAdmin
unfoldable pub marshal_change_admin : MsgChangeAdmin → Bytes
marshal_change_admin m =
    concat (string_field 1 m.sender ∷ (string_field 2 m.denom ∷ (string_field 3 m.new_admin ∷ [])))

unfoldable pub size_change_admin : MsgChangeAdmin → ℕ
size_change_admin m = string_size m.sender + string_size m.denom + string_size m.new_admin

abbrev pub change_admin_cases : List (Case MsgChangeAdmin)
change_admin_cases =
    string_case (λ m b. record m { sender = b })
    ∷ (string_case (λ m b. record m { denom = b })
        ∷ (string_case (λ m b. record m { new_admin = b }) ∷ []))

unfoldable pub unmarshal_change_admin : Bytes → Outcome MsgChangeAdmin
unmarshal_change_admin bytes =
    unmarshal_into change_admin_cases (record { sender = []; denom = []; new_admin = [] }) bytes

module _ (env : Env) (wire : Wire env) where
  -- MsgMint
  unfoldable pub marshal_mint : MsgMint → Outcome Bytes
  marshal_mint m = do
    amount ← wire.coin_marshal m.amount
    ok (
        concat (
          string_field 1 m.sender
          ∷ (message_field 2 amount ∷ (string_field 3 m.mint_to_address ∷ []))))

  unfoldable pub size_mint : MsgMint → ℕ
  size_mint m =
      string_size m.sender + message_size (wire.coin_size m.amount) + string_size m.mint_to_address

  abbrev pub mint_cases : List (Case MsgMint)
  mint_cases =
      string_case (λ m b. record m { sender = b })
      ∷ (message_case (λ m b. do c ← wire.coin_unmarshal m.amount b; ok (record m { amount = c }))
          ∷ (string_case (λ m b. record m { mint_to_address = b }) ∷ []))

  unfoldable pub unmarshal_mint : Bytes → Outcome MsgMint
  unmarshal_mint bytes =
      unmarshal_into mint_cases (record { sender = []; amount = no_coin; mint_to_address = [] })
        bytes

  -- MsgBurn
  unfoldable pub marshal_burn : MsgBurn → Outcome Bytes
  marshal_burn m = do
    amount ← wire.coin_marshal m.amount
    ok (
        concat (
          string_field 1 m.sender
          ∷ (message_field 2 amount ∷ (string_field 3 m.burn_from_address ∷ []))))

  unfoldable pub size_burn : MsgBurn → ℕ
  size_burn m =
      string_size m.sender
      + message_size (wire.coin_size m.amount)
      + string_size m.burn_from_address

  abbrev pub burn_cases : List (Case MsgBurn)
  burn_cases =
      string_case (λ m b. record m { sender = b })
      ∷ (message_case (λ m b. do c ← wire.coin_unmarshal m.amount b; ok (record m { amount = c }))
          ∷ (string_case (λ m b. record m { burn_from_address = b }) ∷ []))

  unfoldable pub unmarshal_burn : Bytes → Outcome MsgBurn
  unmarshal_burn bytes =
      unmarshal_into burn_cases (record { sender = []; amount = no_coin; burn_from_address = [] })
        bytes

  -- MsgForceTransfer
  unfoldable pub marshal_force_transfer : MsgForceTransfer → Outcome Bytes
  marshal_force_transfer m = do
    amount ← wire.coin_marshal m.amount
    ok (
        concat (
          string_field 1 m.sender
          ∷ (message_field 2 amount
              ∷ (string_field 3 m.transfer_from_address
                  ∷ (string_field 4 m.transfer_to_address ∷ [])))))

  unfoldable pub size_force_transfer : MsgForceTransfer → ℕ
  size_force_transfer m =
      string_size m.sender
      + message_size (wire.coin_size m.amount)
      + string_size m.transfer_from_address
      + string_size m.transfer_to_address

  abbrev pub force_transfer_cases : List (Case MsgForceTransfer)
  force_transfer_cases =
      string_case (λ m b. record m { sender = b })
      ∷ (message_case (λ m b. do c ← wire.coin_unmarshal m.amount b; ok (record m { amount = c }))
          ∷ (string_case (λ m b. record m { transfer_from_address = b })
              ∷ (string_case (λ m b. record m { transfer_to_address = b }) ∷ [])))

  unfoldable pub unmarshal_force_transfer : Bytes → Outcome MsgForceTransfer
  unmarshal_force_transfer bytes =
      unmarshal_into force_transfer_cases
        (record {
          sender = [];
          amount = no_coin;
          transfer_from_address = [];
          transfer_to_address = [];
        })
        bytes

  -- MsgSetDenomMetadata
  unfoldable pub marshal_set_denom_metadata : MsgSetDenomMetadata env → Outcome Bytes
  marshal_set_denom_metadata m = do
    metadata ← wire.metadata_marshal m.metadata
    ok (concat (string_field 1 m.sender ∷ (message_field 2 metadata ∷ [])))

  unfoldable pub size_set_denom_metadata : MsgSetDenomMetadata env → ℕ
  size_set_denom_metadata m = string_size m.sender + message_size (wire.metadata_size m.metadata)

  abbrev pub set_denom_metadata_cases : List (Case (MsgSetDenomMetadata env))
  set_denom_metadata_cases =
      string_case (λ m b. record m { sender = b })
      ∷ (message_case
            (λ m b. do c ← wire.metadata_unmarshal m.metadata b; ok (record m { metadata = c }))
          ∷ [])

  unfoldable pub unmarshal_set_denom_metadata : Bytes → Outcome (MsgSetDenomMetadata env)
  unmarshal_set_denom_metadata bytes =
      unmarshal_into set_denom_metadata_cases (record { sender = []; metadata = wire.no_metadata })
        bytes
