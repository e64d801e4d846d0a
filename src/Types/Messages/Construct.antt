-- ===== src/Types/Messages/Construct.antt =====
-- types/msgs.go: the constructors of the messages, their routes and type names, and what is signed.
use tokenfactory.Base.{[]}
use tokenfactory.Base.Bytes.{Bytes}
use tokenfactory.Base.Outcome.{Outcome, or_panic, ◌>>=◌}
use tokenfactory.Env.{Env, Coin}
use tokenfactory.Types.Keys.{router_key}
use tokenfactory.Types.Events.{
  type_msg_create_denom, type_msg_mint, type_msg_burn, type_msg_force_transfer,
  type_msg_change_admin, type_msg_set_denom_metadata,
}
use tokenfactory.Types.Messages.{
  MsgCreateDenom, MsgMint, MsgBurn, MsgForceTransfer, MsgChangeAdmin, MsgSetDenomMetadata, Msg,
}

-- NewMsgCreateDenom
abbrev pub new_msg_create_denom : Bytes → Bytes → MsgCreateDenom
new_msg_create_denom sender subdenom = record { sender = sender; subdenom = subdenom }

-- NewMsgMint
abbrev pub new_msg_mint : Bytes → Coin → MsgMint
new_msg_mint sender amount = record { sender = sender; amount = amount; mint_to_address = [] }

-- NewMsgMintTo
abbrev pub new_msg_mint_to : Bytes → Coin → Bytes → MsgMint
new_msg_mint_to sender amount mint_to_address = record {
  sender = sender;
  amount = amount;
  mint_to_address = mint_to_address;
}

-- NewMsgBurn
abbrev pub new_msg_burn : Bytes → Coin → MsgBurn
new_msg_burn sender amount = record { sender = sender; amount = amount; burn_from_address = [] }

-- NewMsgBurnFrom
abbrev pub new_msg_burn_from : Bytes → Coin → Bytes → MsgBurn
new_msg_burn_from sender amount burn_from_address = record {
  sender = sender;
  amount = amount;
  burn_from_address = burn_from_address;
}

-- NewMsgForceTransfer
abbrev pub new_msg_force_transfer : Bytes → Coin → Bytes → Bytes → MsgForceTransfer
new_msg_force_transfer sender amount from_addr to_addr = record {
  sender = sender;
  amount = amount;
  transfer_from_address = from_addr;
  transfer_to_address = to_addr;
}

-- NewMsgChangeAdmin
abbrev pub new_msg_change_admin : Bytes → Bytes → Bytes → MsgChangeAdmin
new_msg_change_admin sender denom new_admin = record {
  sender = sender;
  denom = denom;
  new_admin = new_admin;
}

module _ {env : Env} where
  -- NewMsgSetDenomMetadata
  abbrev pub new_msg_set_denom_metadata : Bytes → env.Metadata → MsgSetDenomMetadata env
  new_msg_set_denom_metadata sender metadata = record { sender = sender; metadata = metadata }

module _ (env : Env) where
  -- Msg.Route, the same for all six
  abbrev pub route : Msg env → Bytes
  route m = router_key

  -- Msg.Type
  abbrev pub type_of : Msg env → Bytes
  type_of (Msg.create_denom m) = type_msg_create_denom
  type_of (Msg.mint m) = type_msg_mint
  type_of (Msg.burn m) = type_msg_burn
  type_of (Msg.force_transfer m) = type_msg_force_transfer
  type_of (Msg.change_admin m) = type_msg_change_admin
  type_of (Msg.set_denom_metadata m) = type_msg_set_denom_metadata

-- ModuleCdc's MarshalJSON, a codec.ProtoCodec, and sdk.SortJSON.
pub record SignJson (env : Env) : Type 0 where
  pub marshal_json : Msg env → Outcome Bytes
  pub sort_json : Bytes → Outcome Bytes

module _ {env : Env} (json : SignJson env) where
  -- Msg.GetSignBytes, the same for all six
  unfoldable pub get_sign_bytes : Msg env → Outcome Bytes
  get_sign_bytes m = do bz ← or_panic (json.marshal_json m); or_panic (json.sort_json bz)
