-- ===== src/Types/Messages.antt =====
-- types/msgs.go: the six messages, their stateless checks and their signers.
pub mod Construct
pub mod Signers
use tokenfactory.Base.{List, [], ◌∷◌, Bool, true, false, not, ◌||◌}
use tokenfactory.Base.Bytes.{Bytes}
use tokenfactory.Base.Outcome.{
  Outcome, ok, err, panic, invalid_address, invalid_coins, invalid_denom, ◌>>=◌, ◌>>◌, fail_if,
  wrap,
}
use tokenfactory.Env.{Env, Coin, ℤ, unset, pos, negsuc}
use tokenfactory.Types.Denoms.{get_token_denom, deconstruct_denom}

pub record MsgCreateDenom : Type 0 where
  pub sender : Bytes
  pub subdenom : Bytes

pub record MsgMint : Type 0 where
  pub sender : Bytes
  pub amount : Coin
  pub mint_to_address : Bytes

pub record MsgBurn : Type 0 where
  pub sender : Bytes
  pub amount : Coin
  pub burn_from_address : Bytes

pub record MsgForceTransfer : Type 0 where
  pub sender : Bytes
  pub amount : Coin
  pub transfer_from_address : Bytes
  pub transfer_to_address : Bytes

pub record MsgChangeAdmin : Type 0 where
  pub sender : Bytes
  pub denom : Bytes
  pub new_admin : Bytes

pub record MsgSetDenomMetadata (env : Env) : Type 0 where
  pub sender : Bytes
  pub metadata : env.Metadata

-- Any of the messages that the service routes.
pub data Msg (env : Env) : Type 0 where
  create_denom : MsgCreateDenom → Msg env
  mint : MsgMint → Msg env
  burn : MsgBurn → Msg env
  force_transfer : MsgForceTransfer → Msg env
  change_admin : MsgChangeAdmin → Msg env
  set_denom_metadata : MsgSetDenomMetadata env → Msg env

-- The Go types of the messages.
pub data MsgType : Type 0 where
  create_denom mint burn force_transfer change_admin set_denom_metadata : MsgType

module _ (env : Env) where
  -- The Go type of a message.
  abbrev pub go_type : Msg env → MsgType
  go_type (Msg.create_denom m) = MsgType.create_denom
  go_type (Msg.mint m) = MsgType.mint
  go_type (Msg.burn m) = MsgType.burn
  go_type (Msg.force_transfer m) = MsgType.force_transfer
  go_type (Msg.change_admin m) = MsgType.change_admin
  go_type (Msg.set_denom_metadata m) = MsgType.set_denom_metadata

  -- The Sender of a message.
  abbrev pub sender_of : Msg env → Bytes
  sender_of (Msg.create_denom m) = m.sender
  sender_of (Msg.mint m) = m.sender
  sender_of (Msg.burn m) = m.sender
  sender_of (Msg.force_transfer m) = m.sender
  sender_of (Msg.change_admin m) = m.sender
  sender_of (Msg.set_denom_metadata m) = m.sender

  -- `_, err := sdk.AccAddressFromBech32(s)`, its error wrapped as ErrInvalidAddress.
  unfoldable pub check_address : Bytes → Outcome (Unit {0})
  check_address s = wrap invalid_address (env.address_from_bech32 s) >> ok tt

  -- `!c.IsValid() || c.Amount.Equal(sdk.ZeroInt())`
  unfoldable pub check_positive : Coin → Outcome (Unit {0})
  check_positive c = do
    valid ← env.coin_is_valid c
    fail_if (not valid) invalid_coins
    zero ← env.equal_zero c.amount
    fail_if zero invalid_coins

  -- MsgCreateDenom.ValidateBasic
  unfoldable pub create_denom_validate_basic : MsgCreateDenom → Outcome (Unit {0})
  unfolding check_address
  create_denom_validate_basic m = do
    check_address m.sender
    wrap invalid_denom (get_token_denom env m.sender m.subdenom)
    ok tt

  -- MsgMint.ValidateBasic
  unfoldable pub mint_validate_basic : MsgMint → Outcome (Unit {0})
  unfolding check_address check_positive
  mint_validate_basic m = check_address m.sender >> check_positive m.amount

  -- MsgBurn.ValidateBasic
  unfoldable pub burn_validate_basic : MsgBurn → Outcome (Unit {0})
  unfolding check_address check_positive
  burn_validate_basic m = check_address m.sender >> check_positive m.amount

  -- MsgForceTransfer.ValidateBasic: unlike the two above it lets an amount of zero pass.
  unfoldable pub force_transfer_validate_basic : MsgForceTransfer → Outcome (Unit {0})
  unfolding check_address
  force_transfer_validate_basic m = do
    check_address m.sender
    check_address m.transfer_from_address
    check_address m.transfer_to_address
    valid ← env.coin_is_valid m.amount
    fail_if (not valid) invalid_coins

  -- MsgChangeAdmin.ValidateBasic
  unfoldable pub change_admin_validate_basic : MsgChangeAdmin → Outcome (Unit {0})
  unfolding check_address
  change_admin_validate_basic m = do
    check_address m.sender
    check_address m.new_admin
    deconstruct_denom env m.denom
    ok tt

  -- MsgSetDenomMetadata.ValidateBasic
  unfoldable pub set_denom_metadata_validate_basic : MsgSetDenomMetadata env → Outcome (Unit {0})
  unfolding check_address
  set_denom_metadata_validate_basic m = do
    check_address m.sender
    env.metadata_validate m.metadata
    deconstruct_denom env (env.base m.metadata)
    ok tt

  -- Msg.ValidateBasic
  unfoldable pub validate_basic : Msg env → Outcome (Unit {0})
  validate_basic (Msg.create_denom m) = create_denom_validate_basic m
  validate_basic (Msg.mint m) = mint_validate_basic m
  validate_basic (Msg.burn m) = burn_validate_basic m
  validate_basic (Msg.force_transfer m) = force_transfer_validate_basic m
  validate_basic (Msg.change_admin m) = change_admin_validate_basic m
  validate_basic (Msg.set_denom_metadata m) = set_denom_metadata_validate_basic m

  -- `sender, _ := sdk.AccAddressFromBech32(s)`: the address is nil beside an error.
  unfoldable pub address_or_nil : Outcome Bytes → Outcome Bytes
  address_or_nil (ok a) = ok a
  address_or_nil (err e) = ok []
  address_or_nil (panic e) = panic e

  -- Msg.GetSigners, the same for all six.
  unfoldable pub get_signers : Msg env → Outcome (List Bytes)
  unfolding address_or_nil
  get_signers m = do a ← address_or_nil (env.address_from_bech32 (sender_of m)); ok (a ∷ [])
