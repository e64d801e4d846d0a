-- ===== src/Examples/Scenario.antt =====
-- A short run: a denom of "oalice", and a denom that the bank knows and nobody owns.
use tokenfactory.Base.{◌≡◌, refl, ap, [], ◌∷◌, none, some}
use tokenfactory.Base.Bytes.{Bytes, text, same, contains, split, add_to_head}
use tokenfactory.Base.Outcome.{ok}
use tokenfactory.Env.{pos}
use tokenfactory.Types.Keys.{denom_prefix_store, creator_prefix}
use tokenfactory.Types.Denoms.{get_token_denom, deconstruct_denom, deconstruct_parts, token_denom}
use tokenfactory.Types.Authority.{no_admin, authority_validate}
use tokenfactory.Types.Messages.{
  Msg, MsgCreateDenom, MsgMint, MsgChangeAdmin, validate_basic, check_address,
  create_denom_validate_basic, change_admin_validate_basic,
}
use tokenfactory.Codec.Authority.{
  marshal, unmarshal, unmarshal_from, unmarshal_field, unmarshal_admin,
}
use tokenfactory.Codec.Varint.{encode_varint, encode_groups, read_varint, read_varint_from}
use tokenfactory.Keeper.Exec.Laws.{>>=-ok}
use tokenfactory.Keeper.State.{State}
use tokenfactory.Keeper.Params.{get_params}
use tokenfactory.Keeper.Admins.{get_authority_metadata, set_authority_metadata, set_admin}
use tokenfactory.Keeper.Creators.{add_denom_from_creator}
use tokenfactory.Keeper.CreateDenom.{
  create_denom, validate_create_denom, charge_for_create_denom, charge_fee, charge_gas,
  create_denom_after_validation, register_metadata,
}
use tokenfactory.Keeper.MsgServer.{handle, handle_create_denom, handle_change_admin, check_admin}
use tokenfactory.Keeper.MsgServer.Authority.{IsAdmin}
use tokenfactory.Keeper.Invariant.{IsWellFormed}
use tokenfactory.Keeper.Invariant.Reach.{Happens, Reaches}
use tokenfactory.Examples.Store.{lookup}
use tokenfactory.Examples.Chain.{chain, find, address_from_bech32, validate_denom, move}

abbrev pub alice : Bytes
alice = text "oalice"

abbrev pub bob : Bytes
bob = text "obob"

abbrev pub owned : Bytes
owned = text "factory/oalice/gold"

-- Known to the bank, without authority metadata.
abbrev pub nobodys : Bytes
nobodys = text "factory/obob/tin"

abbrev pub start : State chain
start = record {
  store = [];
  chain = record { known = nobodys ∷ []; moved = []; gas = 0; params = (some [], 7) };
  events = [];
}

abbrev pub create_gold : MsgCreateDenom
create_gold = record { sender = alice; subdenom = text "gold" }

abbrev pub give_to_bob : MsgChangeAdmin
give_to_bob = record { sender = alice; denom = owned; new_admin = bob }

abbrev pub mint_gold : Bytes → MsgMint
mint_gold sender = record {
  sender = sender;
  amount = record { denom = owned; amount = pos 5 };
  mint_to_address = [];
}

abbrev pub created : State chain
created = (handle_create_denom chain create_gold start).1

abbrev pub given : State chain
given = (handle_change_admin chain give_to_bob created).1

pub created_ok : handle_create_denom chain create_gold start ≡ (ok owned, created)
unfolding handle_create_denom create_denom validate_create_denom get_token_denom token_denom
    contains same charge_for_create_denom charge_fee charge_gas get_params move
    create_denom_after_validation register_metadata set_authority_metadata authority_validate
    add_denom_from_creator find address_from_bech32 validate_denom
created_ok = refl

pub created-handle : handle chain (Msg.create_denom create_gold) start ≡ (ok (some owned), created)
unfolding handle
created-handle = ap (λ r. r) (>>=-ok (handle_create_denom chain create_gold) _ start created_ok)

pub create_gold_valid : validate_basic chain (Msg.create_denom create_gold) ≡ ok tt
unfolding validate_basic create_denom_validate_basic check_address get_token_denom token_denom
    contains address_from_bech32 validate_denom
create_gold_valid = refl

pub given_ok : handle_change_admin chain give_to_bob created ≡ (ok tt, given)
unfolding handle_change_admin check_admin set_admin set_authority_metadata get_authority_metadata
    denom_prefix_store authority_validate handle_create_denom create_denom validate_create_denom
    get_token_denom token_denom contains same charge_for_create_denom charge_fee charge_gas
    get_params move create_denom_after_validation register_metadata add_denom_from_creator find
    address_from_bech32 validate_denom lookup marshal encode_varint encode_groups unmarshal
    unmarshal_from unmarshal_field unmarshal_admin read_varint read_varint_from creator_prefix
given_ok = refl

pub give_to_bob_valid : validate_basic chain (Msg.change_admin give_to_bob) ≡ ok tt
unfolding validate_basic change_admin_validate_basic check_address deconstruct_denom
    deconstruct_parts split add_to_head same contains address_from_bech32 validate_denom
give_to_bob_valid = refl

pub start_nobody : IsAdmin chain start nobodys []
unfolding get_authority_metadata lookup unmarshal unmarshal_from
start_nobody = refl

pub start_known : find start.chain.known nobodys ≡ some nobodys
unfolding find same
start_known = refl

pub start-IsWellFormed : IsWellFormed chain start
unfolding lookup get_authority_metadata unmarshal unmarshal_from authority_validate same
start-IsWellFormed = record {
  registered = λ d b h. let clash : none ≡ some b = h in cc;
  indexed = λ c d v nb h. let clash : none ≡ some v = h in cc;
  readable = λ d. (no_admin, refl, refl);
}

pub reached : Reaches chain start created
reached =
    Reaches.next Reaches.here
      (Happens.delivered (Msg.create_denom create_gold) create_gold_valid created-handle)
