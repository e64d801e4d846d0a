-- ===== src/Keeper/MsgServer.antt =====
-- keeper/msg_server.go: one handler for each message.
pub mod Atomic
pub mod Refuses
pub mod Authority
pub mod Effects
pub mod Outcomes
pub mod SameStore
pub mod Progress
pub mod Coins
pub mod Supply
pub mod Reversal
use tokenfactory.Base.{List, [], ◌∷◌, Option, none, some, Bool, false, not, if◌then◌else◌}
use tokenfactory.Base.Bytes.{Bytes, same}
use tokenfactory.Base.Outcome.{denom_does_not_exist, unauthorized, burn_from_module_account}
use tokenfactory.Env.{Env}
use tokenfactory.Types.Events.{
  Event, attribute_amount, attribute_creator, attribute_new_token_denom, attribute_mint_to_address,
  attribute_burn_from_address, attribute_transfer_from_address, attribute_transfer_to_address,
  attribute_denom, attribute_new_admin, attribute_denom_metadata, type_msg_create_denom,
  type_msg_mint, type_msg_burn, type_msg_force_transfer, type_msg_change_admin,
  type_msg_set_denom_metadata,
}
use tokenfactory.Types.Messages.{
  MsgCreateDenom, MsgMint, MsgBurn, MsgForceTransfer, MsgChangeAdmin, MsgSetDenomMetadata, Msg,
}
use tokenfactory.Keeper.Exec.{pure, lift, gets, asks, modify, fail_if, ◌>>=◌, ◌>>◌}
use tokenfactory.Keeper.State.{State, Action, call, emit}
use tokenfactory.Keeper.Admins.{get_authority_metadata, set_admin}
use tokenfactory.Keeper.BankActions.{mint_to, burn_from, force_transfer_coins}
use tokenfactory.Keeper.CreateDenom.{create_denom, is_some}

abbrev pub new_event : Bytes → List (Bytes × Bytes) → Event
new_event ty attributes = record { ty = ty; attributes = attributes }

-- `if s == "" { s = otherwise }`
abbrev pub default_to : Bytes → Bytes → Bytes
default_to otherwise s = if same s [] then otherwise else s

module _ (env : Env) where
  -- The check that opens five of the handlers: the sender is the admin of the denom.
  unfoldable pub check_admin : Bytes → Bytes → Action env (Unit {0})
  check_admin denom sender = do
    metadata ← asks (get_authority_metadata env denom)
    fail_if (not (same sender metadata.admin)) unauthorized

  -- `_, ok := accountI.(authtypes.ModuleAccountI)`
  unfoldable pub holds_module_account : Option env.Account → Bool
  holds_module_account none = false
  holds_module_account (some a) = env.is_module_account a

  -- msgServer.CreateDenom
  unfoldable pub handle_create_denom : MsgCreateDenom → Action env Bytes
  handle_create_denom m = do
    denom ← create_denom env m.sender m.subdenom
    modify (
        emit env (
          new_event type_msg_create_denom
            ((attribute_creator, m.sender) ∷ ((attribute_new_token_denom, denom) ∷ []))))
    pure denom

  -- msgServer.Mint
  unfoldable pub handle_mint : MsgMint → Action env (Unit {0})
  handle_mint m = do
    exists ← gets (λ s. is_some (env.get_denom_metadata s.chain m.amount.denom))
    fail_if (not exists) denom_does_not_exist
    check_admin m.amount.denom m.sender
    mint_to env m.amount (default_to m.sender m.mint_to_address)
    modify (
        emit env (
          new_event type_msg_mint (
            (attribute_mint_to_address, default_to m.sender m.mint_to_address)
            ∷ ((attribute_amount, env.coin_string m.amount) ∷ []))))

  -- msgServer.Burn. `sdk.AccAddress(msg.BurnFromAddress)` is a conversion of the text's bytes, and
  -- decodes nothing.
  unfoldable pub handle_burn : MsgBurn → Action env (Unit {0})
  unfolding holds_module_account
  handle_burn m = do
    check_admin m.amount.denom m.sender
    module_account ← gets (λ s.
        holds_module_account (env.get_account s.chain (default_to m.sender m.burn_from_address)))
    fail_if module_account burn_from_module_account
    burn_from env m.amount (default_to m.sender m.burn_from_address)
    modify (
        emit env (
          new_event type_msg_burn (
            (attribute_burn_from_address, default_to m.sender m.burn_from_address)
            ∷ ((attribute_amount, env.coin_string m.amount) ∷ []))))

  -- msgServer.ForceTransfer
  unfoldable pub handle_force_transfer : MsgForceTransfer → Action env (Unit {0})
  handle_force_transfer m = do
    check_admin m.amount.denom m.sender
    force_transfer_coins env m.amount m.transfer_from_address m.transfer_to_address
    modify (
        emit env (
          new_event type_msg_force_transfer (
            (attribute_transfer_from_address, m.transfer_from_address)
            ∷ ((attribute_transfer_to_address, m.transfer_to_address)
                ∷ ((attribute_amount, env.coin_string m.amount) ∷ [])))))

  -- msgServer.ChangeAdmin
  unfoldable pub handle_change_admin : MsgChangeAdmin → Action env (Unit {0})
  handle_change_admin m = do
    check_admin m.denom m.sender
    set_admin env m.denom m.new_admin
    modify (
        emit env (
          new_event type_msg_change_admin
            ((attribute_denom, m.denom) ∷ ((attribute_new_admin, m.new_admin) ∷ []))))

  -- msgServer.SetDenomMetadata
  unfoldable pub handle_set_denom_metadata : MsgSetDenomMetadata env → Action env (Unit {0})
  handle_set_denom_metadata m = do
    lift (env.metadata_validate m.metadata)
    check_admin (env.base m.metadata) m.sender
    modify (λ s. record s { chain = env.set_denom_metadata m.metadata s.chain })
    modify (
        emit env (
          new_event type_msg_set_denom_metadata (
            (attribute_denom, env.base m.metadata)
            ∷ ((attribute_denom_metadata, env.metadata_string m.metadata) ∷ []))))

  -- The service routes a message to its handler. Only CreateDenom's response holds something, the
  -- denom.
  unfoldable pub handle : Msg env → Action env (Option Bytes)
  handle (Msg.create_denom m) = do denom ← handle_create_denom m; pure (some denom)
  handle (Msg.mint m) = handle_mint m >> pure none
  handle (Msg.burn m) = handle_burn m >> pure none
  handle (Msg.force_transfer m) = handle_force_transfer m >> pure none
  handle (Msg.change_admin m) = handle_change_admin m >> pure none
  handle (Msg.set_denom_metadata m) = handle_set_denom_metadata m >> pure none
