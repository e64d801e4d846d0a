-- ===== src/Examples/Import.antt =====
-- The theorems on a genesis, applied to that of Examples.Arrival.
use tokenfactory.Base.{◌≡◌, ◌≢◌, ◌↔◌, refl, sym, ap, subst, ◌∙◌, [], ◌++◌, Elem, none, some}
use tokenfactory.Base.Bytes.{Bytes, same, contains, split, add_to_head}
use tokenfactory.Base.Outcome.{ok}
use tokenfactory.Types.Keys.{creators_prefix}
use tokenfactory.Types.Denoms.{deconstruct_denom, deconstruct_parts}
use tokenfactory.Types.Messages.{
  Msg, MsgChangeAdmin, validate_basic, check_address, change_admin_validate_basic,
}
use tokenfactory.Types.Params.{new_params}
use tokenfactory.Types.Genesis.{GenesisDenom, GenesisState}
use tokenfactory.Keeper.State.{State}
use tokenfactory.Keeper.Params.{get_params}
use tokenfactory.Keeper.MsgServer.{handle}
use tokenfactory.Keeper.MsgServer.Authority.{IsAdmin}
use tokenfactory.Keeper.MsgServer.Progress.{handle_change_admin-progress}
use tokenfactory.Keeper.Invariant.{IsWellFormed}
use tokenfactory.Keeper.Invariant.Reach.{Happens, Reaches}
use tokenfactory.Keeper.Registry.Listed.{ListsOwn}
use tokenfactory.Keeper.Genesis.{init_genesis}
use tokenfactory.Keeper.Genesis.Onwards.{IsAtHome, Reaches-init_genesis}
use tokenfactory.Keeper.Genesis.Import.{Imports}
use tokenfactory.Keeper.Genesis.Init.{stored_fee, init_genesis-genesis_validate}
use tokenfactory.Keeper.Genesis.RoundTrip.{export_genesis-init_genesis}
use tokenfactory.Keeper.Export.{export_genesis}
use tokenfactory.Module.App.{module_validate_genesis, module_init_genesis}
use tokenfactory.Module.Laws.{module_init_genesis-module_validate_genesis}
use tokenfactory.Examples.Store.{lookup}
use tokenfactory.Examples.Chain.{
  chain, address_from_bech32, validate_denom, chain-StoreLaws, chain-AddressLaws, chain-BankLaws,
  chain-DenomLaws,
}
use tokenfactory.Examples.Scenario.{alice, bob, owned, start, start-IsWellFormed}
use tokenfactory.Examples.Arrival.{genesis, genesis-valid, chain-ImportLaws, codec, read_json}

init_genesis-genesis_validate_example :
    (t : State chain) × (init_genesis chain genesis start ≡ (ok tt, t))
    × Imports chain start t genesis.factory_denoms
    × (get_params chain t
        ≡ ok (new_params (chain-ImportLaws.stored (stored_fee chain-ImportLaws none)) 9))
init_genesis-genesis_validate_example =
    init_genesis-genesis_validate chain-StoreLaws chain-AddressLaws chain-BankLaws chain-ImportLaws
      genesis start genesis-valid refl

start_empty : (k v : Bytes) → lookup (creators_prefix ++ k) start.store ≢ some v
unfolding lookup
start_empty k v h = cc

export_genesis-init_genesis_example :
    (t : State chain) × (out : GenesisState) × (init_genesis chain genesis start ≡ (ok tt, t))
    × (export_genesis chain t ≡ ok out)
    × ((g : GenesisDenom) → Elem g out.factory_denoms ↔ Elem g genesis.factory_denoms)
    × (out.params ≡ new_params (chain-ImportLaws.stored (stored_fee chain-ImportLaws none)) 9)
export_genesis-init_genesis_example =
    export_genesis-init_genesis chain-StoreLaws chain-AddressLaws chain-BankLaws chain-ImportLaws
      genesis start genesis-valid refl start-IsWellFormed start_empty

text_valid : module_validate_genesis chain codec [] ≡ ok tt
unfolding module_validate_genesis read_json
text_valid = genesis-valid

module_init_genesis-module_validate_genesis_example :
    (gen : GenesisState) × (t : State chain) × (read_json [] ≡ ok gen)
    × (module_init_genesis chain codec [] start ≡ (ok tt, t))
    × Imports chain start t gen.factory_denoms
module_init_genesis-module_validate_genesis_example =
    module_init_genesis-module_validate_genesis chain-StoreLaws chain-AddressLaws chain-BankLaws
      chain-ImportLaws codec [] start text_valid refl

abbrev arrived : State chain
arrived = (init_genesis chain genesis start).1

came_in :
    (t : State chain) × (init_genesis chain genesis start ≡ (ok tt, t))
    × Imports chain start t genesis.factory_denoms
came_in =
    let (t, e, imports, _) =
      init_genesis-genesis_validate chain-StoreLaws chain-AddressLaws chain-BankLaws
        chain-ImportLaws genesis start genesis-valid refl in
    (t, e, imports)

arrived_ok : init_genesis chain genesis start ≡ (ok tt, arrived)
arrived_ok = ap (λ r. (r.0, arrived)) came_in.1

bob-IsAdmin : IsAdmin chain arrived owned bob
bob-IsAdmin =
    subst (λ x. IsAdmin chain x owned bob) (ap (λ r. r.1) (sym came_in.1 ∙ arrived_ok))
      came_in.2.admins.0

-- Bob passes the gold on to alice.
abbrev pass_on : MsgChangeAdmin
pass_on = record { sender = bob; denom = owned; new_admin = alice }

pass_on_valid : validate_basic chain (Msg.change_admin pass_on) ≡ ok tt
unfolding validate_basic change_admin_validate_basic check_address deconstruct_denom
    deconstruct_parts split add_to_head same contains address_from_bech32 validate_denom
pass_on_valid = refl

abbrev passed_on : State chain
passed_on = (handle chain (Msg.change_admin pass_on) arrived).1

passed_on_ok : handle chain (Msg.change_admin pass_on) arrived ≡ (ok none, passed_on)
passed_on_ok =
    let (_, e, _) =
      handle_change_admin-progress chain-StoreLaws chain-AddressLaws pass_on arrived pass_on_valid
        bob-IsAdmin in
    ap (λ r. (r.0, passed_on)) e

Reaches-init_genesis_example :
    IsWellFormed chain passed_on
    × ListsOwn chain passed_on
    × ((g : GenesisDenom) → Elem g genesis.factory_denoms → IsAtHome chain passed_on g.denom)
Reaches-init_genesis_example =
    Reaches-init_genesis {env = chain} chain-StoreLaws chain-AddressLaws chain-BankLaws
      chain-DenomLaws chain-ImportLaws genesis start arrived passed_on genesis-valid refl
      start-IsWellFormed start_empty arrived_ok
      (Reaches.next Reaches.here
        (Happens.delivered (Msg.change_admin pass_on) pass_on_valid passed_on_ok))
