-- ===== src/Types/Events.antt =====
-- types/events.go and the message type constants of types/msgs.go, with sdk.Event.
use tokenfactory.Base.{List}
use tokenfactory.Base.Bytes.{Bytes, text}

-- sdk.NewEvent(ty, attributes…), each attribute a key and a value.
pub record Event : Type 0 where
  pub ty : Bytes
  pub attributes : List (Bytes × Bytes)

abbrev pub attribute_amount : Bytes
attribute_amount = text "amount"

abbrev pub attribute_creator : Bytes
attribute_creator = text "creator"

abbrev pub attribute_new_token_denom : Bytes
attribute_new_token_denom = text "new_token_denom"

abbrev pub attribute_mint_to_address : Bytes
attribute_mint_to_address = text "mint_to_address"

abbrev pub attribute_burn_from_address : Bytes
attribute_burn_from_address = text "burn_from_address"

abbrev pub attribute_transfer_from_address : Bytes
attribute_transfer_from_address = text "transfer_from_address"

abbrev pub attribute_transfer_to_address : Bytes
attribute_transfer_to_address = text "transfer_to_address"

abbrev pub attribute_denom : Bytes
attribute_denom = text "denom"

abbrev pub attribute_new_admin : Bytes
attribute_new_admin = text "new_admin"

abbrev pub attribute_denom_metadata : Bytes
attribute_denom_metadata = text "denom_metadata"

abbrev pub type_msg_create_denom : Bytes
type_msg_create_denom = text "create_denom"

abbrev pub type_msg_mint : Bytes
type_msg_mint = text "tf_mint"

abbrev pub type_msg_burn : Bytes
type_msg_burn = text "tf_burn"

abbrev pub type_msg_force_transfer : Bytes
type_msg_force_transfer = text "force_transfer"

abbrev pub type_msg_change_admin : Bytes
type_msg_change_admin = text "change_admin"

abbrev pub type_msg_set_denom_metadata : Bytes
type_msg_set_denom_metadata = text "set_denom_metadata"
