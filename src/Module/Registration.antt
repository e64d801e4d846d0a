-- ===== src/Module/Registration.antt =====
-- types/codec.go: the messages that are registered by name, and as implementations of sdk.Msg.
use tokenfactory.Base.{List, [], ◌∷◌}
use tokenfactory.Base.Bytes.{Bytes, text}
use tokenfactory.Base.Outcome.{Outcome, ◌>>=◌}
use tokenfactory.Types.Messages.{MsgType}

-- codec.LegacyAmino: a codec that names are registered with, until it is sealed. A call that is out of
-- order panics.
pub record LegacyAmino : Type 1 where
  pub Codec : Type 0
  pub new_legacy_amino : Codec
  pub register_concrete : MsgType → Bytes → Codec → Outcome Codec
  -- sdk.RegisterLegacyAminoCodec, the names of the SDK's own interfaces
  pub register_sdk : Codec → Outcome Codec
  pub seal : Codec → Outcome Codec

-- cdctypes.InterfaceRegistry, for implementations of sdk.Msg, and msgservice.RegisterMsgServiceDesc
-- for the description of the message service.
pub record InterfaceRegistry : Type 1 where
  pub Registry : Type 0
  pub register_implementations : List MsgType → Registry → Outcome Registry
  pub register_msg_service_desc : Registry → Outcome Registry

module _ (amino : LegacyAmino) where
  -- RegisterCodec: each concrete type and its name. SetDenomMetadata is not among them.
  unfoldable pub register_codec : amino.Codec → Outcome amino.Codec
  register_codec cdc = do
    a ← amino.register_concrete MsgType.create_denom (text "osmosis/tokenfactory/create-denom") cdc
    b ← amino.register_concrete MsgType.mint (text "osmosis/tokenfactory/mint") a
    c ← amino.register_concrete MsgType.burn (text "osmosis/tokenfactory/burn") b
    d ←
        amino.register_concrete MsgType.force_transfer (text "osmosis/tokenfactory/force-transfer")
          c
    amino.register_concrete MsgType.change_admin (text "osmosis/tokenfactory/change-admin") d

  -- init, on the package's own codec.
  unfoldable pub init : Outcome amino.Codec
  init = do
    own ← register_codec amino.new_legacy_amino
    all ← amino.register_sdk own
    amino.seal all

-- RegisterInterfaces: ForceTransfer and SetDenomMetadata are not named; the service's description is
-- registered behind.
unfoldable pub register_interfaces : (lib : InterfaceRegistry) → lib.Registry → Outcome lib.Registry
register_interfaces lib registry = do
  named ←
      lib.register_implementations
        (MsgType.create_denom ∷ (MsgType.mint ∷ (MsgType.burn ∷ (MsgType.change_admin ∷ []))))
        registry
  lib.register_msg_service_desc named
