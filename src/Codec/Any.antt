-- ===== src/Codec/Any.antt =====
-- The codec of a message of whatever type: the methods that the SDK calls through sdk.Msg, by the
-- type that the registry of codec.go has found.
use tokenfactory.Base.{ℕ}
use tokenfactory.Base.Bytes.{Bytes}
use tokenfactory.Base.Outcome.{Outcome, ok, ◌>>=◌}
use tokenfactory.Env.{Env}
use tokenfactory.Types.Messages.{Msg, MsgType}
use tokenfactory.Codec.Wire.{Wire}
use tokenfactory.Codec.Messages.{
  marshal_create_denom, size_create_denom, unmarshal_create_denom, marshal_change_admin,
  size_change_admin, unmarshal_change_admin, marshal_mint, size_mint, unmarshal_mint, marshal_burn,
  size_burn, unmarshal_burn, marshal_force_transfer, size_force_transfer, unmarshal_force_transfer,
  marshal_set_denom_metadata, size_set_denom_metadata, unmarshal_set_denom_metadata,
}

module _ (env : Env) (wire : Wire env) where
  -- Marshal
  unfoldable pub marshal_msg : Msg env → Outcome Bytes
  marshal_msg (Msg.create_denom m) = ok (marshal_create_denom m)
  marshal_msg (Msg.mint m) = marshal_mint env wire m
  marshal_msg (Msg.burn m) = marshal_burn env wire m
  marshal_msg (Msg.force_transfer m) = marshal_force_transfer env wire m
  marshal_msg (Msg.change_admin m) = ok (marshal_change_admin m)
  marshal_msg (Msg.set_denom_metadata m) = marshal_set_denom_metadata env wire m

  -- Size
  unfoldable pub size_msg : Msg env → ℕ
  size_msg (Msg.create_denom m) = size_create_denom m
  size_msg (Msg.mint m) = size_mint env wire m
  size_msg (Msg.burn m) = size_burn env wire m
  size_msg (Msg.force_transfer m) = size_force_transfer env wire m
  size_msg (Msg.change_admin m) = size_change_admin m
  size_msg (Msg.set_denom_metadata m) = size_set_denom_metadata env wire m

  -- Unmarshal into a fresh message of the type.
  unfoldable pub unmarshal_msg : MsgType → Bytes → Outcome (Msg env)
  unmarshal_msg MsgType.create_denom bytes = do
    m ← unmarshal_create_denom bytes
    ok (Msg.create_denom m)
  unmarshal_msg MsgType.mint bytes = do m ← unmarshal_mint env wire bytes; ok (Msg.mint m)
  unmarshal_msg MsgType.burn bytes = do m ← unmarshal_burn env wire bytes; ok (Msg.burn m)
  unmarshal_msg MsgType.force_transfer bytes = do
    m ← unmarshal_force_transfer env wire bytes
    ok (Msg.force_transfer m)
  unmarshal_msg MsgType.change_admin bytes = do
    m ← unmarshal_change_admin bytes
    ok (Msg.change_admin m)
  unmarshal_msg MsgType.set_denom_metadata bytes = do
    m ← unmarshal_set_denom_metadata env wire bytes
    ok (Msg.set_denom_metadata m)
