-- ===== src/Examples/Run.antt =====
-- The theorems on the keeper, applied to the run of Examples.Scenario.
use tokenfactory.Base.{◌≡◌, ◌≢◌, ◌↔◌, ◌⊎◌, refl, ap, [], none, some, Elem, false}
use tokenfactory.Base.Bytes.{Bytes, text, same, contains}
use tokenfactory.Base.Outcome.{IsErr, ok, err, unauthorized}
use tokenfactory.Types.Keys.{authority_key, denom_prefix_store, creator_prefix}
use tokenfactory.Types.Denoms.{get_token_denom, token_denom}
use tokenfactory.Types.Authority.{authority_validate}
use tokenfactory.Types.Messages.{Msg, validate_basic}
use tokenfactory.Codec.Authority.{
  marshal, unmarshal, unmarshal_from, unmarshal_field, unmarshal_admin,
}
use tokenfactory.Codec.Varint.{encode_varint, encode_groups, read_varint, read_varint_from}
use tokenfactory.Keeper.Exec.Laws.{>>=-ok}
use tokenfactory.Keeper.Admins.Laws.{written, get_authority_metadata-set_authority_metadata}
use tokenfactory.Types.Keys.Separation.{bar}
use tokenfactory.Keeper.State.Own.{SameOwn}
use tokenfactory.Keeper.State.{Known}
use tokenfactory.Keeper.Params.{get_params}
use tokenfactory.Keeper.Admins.{get_authority_metadata, set_authority_metadata}
use tokenfactory.Keeper.Creators.{add_denom_from_creator, get_denoms_from_creator}
use tokenfactory.Keeper.CreateDenom.{
  create_denom, validate_create_denom, charge_for_create_denom, charge_fee, charge_gas,
  create_denom_after_validation, register_metadata,
}
use tokenfactory.Keeper.MsgServer.{
  handle, handle_create_denom, handle_change_admin, handle_mint, check_admin,
}
use tokenfactory.Keeper.MsgServer.Authority.{IsAdmin, subject, handle-Refuses}
use tokenfactory.Keeper.MsgServer.Refuses.{Refuses}
use tokenfactory.Keeper.MsgServer.Atomic.{handle-SameOwn_of_error}
use tokenfactory.Keeper.MsgServer.Outcomes.{handle_create_denom-effect, handle_change_admin-effect}
use tokenfactory.Keeper.Invariant.{IsWellFormed}
use tokenfactory.Keeper.Invariant.Reach.{
  Happens, Reaches, handle-IsWellFormed, Reaches-IsWellFormed,
}
use tokenfactory.Keeper.Invariant.Owned.{IsOwned, Reaches-IsOwned}
use tokenfactory.Keeper.Invariant.Renounced.{
  IsAdmin-unique, Reaches-renounced, handle-get_authority_metadata,
}
use tokenfactory.Examples.Store.{lookup}
use tokenfactory.Examples.Chain.{
  chain, find, address_from_bech32, validate_denom, move, chain-StoreLaws, chain-AddressLaws,
  chain-BankLaws, chain-DenomLaws,
}
use tokenfactory.Examples.Scenario.{
  alice, bob, owned, nobodys, start, create_gold, give_to_bob, mint_gold, created, given,
  created_ok, created-handle, create_gold_valid, given_ok, give_to_bob_valid, start_nobody,
  start_known, start-IsWellFormed, reached,
}

bob_refused : handle chain (Msg.mint (mint_gold bob)) created ≡ (err unauthorized, created)
unfolding handle handle_mint check_admin get_authority_metadata denom_prefix_store
    authority_validate handle_create_denom create_denom validate_create_denom get_token_denom
    token_denom contains same charge_for_create_denom charge_fee charge_gas get_params move
    create_denom_after_validation register_metadata add_denom_from_creator find address_from_bech32
    validate_denom lookup marshal encode_varint encode_groups unmarshal unmarshal_from
    unmarshal_field unmarshal_admin read_varint read_varint_from creator_prefix
    set_authority_metadata
bob_refused = refl

bob-IsErr : IsErr (handle chain (Msg.mint (mint_gold bob)) created).0
bob-IsErr = (unauthorized, ap (λ r. r.0) bob_refused)

bob_no-IsAdmin : ¬ IsAdmin chain created owned bob
bob_no-IsAdmin h =
    let (_, _, _, admin, _, _, _, _) =
      handle_create_denom-effect chain chain-StoreLaws chain-AddressLaws chain-BankLaws
        chain-DenomLaws create_gold owned start created created_ok in
    let clash : alice ≡ bob =
      IsAdmin-unique {env = chain} chain-StoreLaws chain-AddressLaws created owned alice bob admin
        h in
    cc

owned-ne-nobodys : some owned ≢ some nobodys
owned-ne-nobodys h = cc

handle-Refuses_example : Refuses (handle chain (Msg.mint (mint_gold bob))) created
handle-Refuses_example =
    handle-Refuses chain (Msg.mint (mint_gold bob)) created owned refl bob_no-IsAdmin

handle-SameOwn_of_error_example :
    SameOwn chain created (handle chain (Msg.mint (mint_gold bob)) created).1
handle-SameOwn_of_error_example =
    handle-SameOwn_of_error chain (Msg.mint (mint_gold bob)) created bob-IsErr

handle-IsWellFormed_example :
    IsWellFormed chain (handle chain (Msg.create_denom create_gold) start).1
handle-IsWellFormed_example =
    handle-IsWellFormed {env = chain} chain-StoreLaws chain-AddressLaws chain-BankLaws
      chain-DenomLaws (Msg.create_denom create_gold) start create_gold_valid start-IsWellFormed

Reaches-IsWellFormed_example : IsWellFormed chain created
Reaches-IsWellFormed_example =
    Reaches-IsWellFormed chain chain-StoreLaws chain-AddressLaws chain-BankLaws chain-DenomLaws
      reached start-IsWellFormed

Reaches-renounced_example :
    IsAdmin chain created nobodys []
    × ((msg : Msg chain)
        → validate_basic chain msg ≡ ok tt
        → subject chain msg ≡ some nobodys
        → Refuses (handle chain msg) created)
Reaches-renounced_example =
    Reaches-renounced chain chain-StoreLaws chain-AddressLaws chain-BankLaws chain-DenomLaws nobodys
      reached (nobodys, start_known) start_nobody

handle-get_authority_metadata_example :
    get_authority_metadata chain nobodys created ≡ get_authority_metadata chain nobodys start
handle-get_authority_metadata_example =
    handle-get_authority_metadata {env = chain} chain-StoreLaws chain-AddressLaws chain-BankLaws
      chain-DenomLaws (Msg.create_denom create_gold) nobodys start created created-handle
      (nobodys, start_known) (λ h. let clash : none ≡ some nobodys = h in cc)

handle_create_denom-effect_example :
    (get_token_denom chain alice (text "gold") ≡ ok owned)
    × (find start.chain.known owned ≡ none)
    × Known chain created owned
    × IsAdmin chain created owned alice
    × ((e : Bytes)
        → owned ≢ e
        → get_authority_metadata chain e created ≡ get_authority_metadata chain e start)
    × ((c e : Bytes)
        → contains bar c ≡ false
        → Elem e (get_denoms_from_creator chain c created)
          ↔ (((alice ≡ c) × (owned ≡ e)) ⊎ Elem e (get_denoms_from_creator chain c start)))
    × (find created.chain.known owned ≡ some owned)
    × ((e : Bytes) → owned ≢ e → find created.chain.known e ≡ find start.chain.known e)
handle_create_denom-effect_example =
    handle_create_denom-effect chain chain-StoreLaws chain-AddressLaws chain-BankLaws
      chain-DenomLaws create_gold owned start created created_ok

handle_change_admin-effect_example :
    IsAdmin chain created owned alice
    × (authority_validate chain (record { admin = bob }) ≡ ok tt)
    × IsAdmin chain given owned bob
    × ((e : Bytes)
        → owned ≢ e
        → get_authority_metadata chain e given ≡ get_authority_metadata chain e created)
    × ((c e : Bytes)
        → Elem e (get_denoms_from_creator chain c given)
          ↔ Elem e (get_denoms_from_creator chain c created))
    × (given.chain ≡ created.chain)
handle_change_admin-effect_example =
    handle_change_admin-effect chain chain-StoreLaws chain-AddressLaws give_to_bob created given
      given_ok

bob_authority :
    set_authority_metadata chain owned (record { admin = bob }) start
    ≡ (ok tt, written chain owned (record { admin = bob }) start)
unfolding set_authority_metadata authority_validate same address_from_bech32 authority_key contains
bob_authority = refl

get_authority_metadata-set_authority_metadata_example :
    (get_authority_metadata chain owned (written chain owned (record { admin = bob }) start)
      ≡ ok (record { admin = bob }))
    × ((e : Bytes)
        → owned ≢ e
        → get_authority_metadata chain e (written chain owned (record { admin = bob }) start)
          ≡ get_authority_metadata chain e start)
get_authority_metadata-set_authority_metadata_example =
    get_authority_metadata-set_authority_metadata chain chain-StoreLaws chain-AddressLaws owned
      (record { admin = bob }) start (written chain owned (record { admin = bob }) start)
      bob_authority

created-owned : IsOwned chain created owned
created-owned =
    let (_, _, _, admin, _, _, _, _) =
      handle_create_denom-effect chain chain-StoreLaws chain-AddressLaws chain-BankLaws
        chain-DenomLaws create_gold owned start created created_ok in
    record { admin = alice; is_admin = admin; someone = λ h. cc }

created-Known : Known chain created owned
created-Known =
    let (_, _, known, _, _, _, _, _) =
      handle_create_denom-effect chain chain-StoreLaws chain-AddressLaws chain-BankLaws
        chain-DenomLaws create_gold owned start created created_ok in
    known

given-handle : handle chain (Msg.change_admin give_to_bob) created ≡ (ok none, given)
unfolding handle
given-handle = >>=-ok (handle_change_admin chain give_to_bob) _ created given_ok

passed_on : Reaches chain created given
passed_on =
    Reaches.next Reaches.here
      (Happens.delivered (Msg.change_admin give_to_bob) give_to_bob_valid given-handle)

Reaches-IsOwned_example : IsOwned chain given owned
Reaches-IsOwned_example =
    Reaches-IsOwned chain chain-StoreLaws chain-AddressLaws chain-BankLaws chain-DenomLaws owned
      passed_on created-Known created-owned
