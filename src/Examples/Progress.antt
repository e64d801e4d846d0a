-- ===== src/Examples/Progress.antt =====
-- The theorems on the registry and on messages that go through, applied to the run of Examples.Scenario.
use tokenfactory.Base.{◌≡◌, refl, subst, List, [], ◌∷◌, none, some}
use tokenfactory.Base.Bytes.{Bytes, text, same, contains}
use tokenfactory.Base.Outcome
use tokenfactory.Base.Outcome.{ok}
use tokenfactory.Types.Denoms.{get_token_denom, token_denom}
use tokenfactory.Types.Messages.{Msg}
use tokenfactory.Keeper.Exec.Laws.{>>=-ok}
use tokenfactory.Keeper.State.{State}
use tokenfactory.Keeper.Params.{get_params}
use tokenfactory.Keeper.CreateDenom.{charge_for_create_denom, charge_fee, charge_gas}
use tokenfactory.Keeper.MsgServer.{handle, handle_change_admin}
use tokenfactory.Keeper.MsgServer.Authority.{IsAdmin}
use tokenfactory.Keeper.MsgServer.Outcomes.{handle_create_denom-effect}
use tokenfactory.Keeper.MsgServer.Progress.{
  handle_change_admin-progress, handle_create_denom-progress,
}
use tokenfactory.Keeper.Registry.{ArePermitted, Agrees, view, transitions}
use tokenfactory.Keeper.Registry.Run.{Runs, Runs-Agrees}
use tokenfactory.Examples.Chain.{
  chain, find, address_from_bech32, validate_denom, move, chain-StoreLaws, chain-AddressLaws,
  chain-BankLaws, chain-DenomLaws,
}
use tokenfactory.Examples.Scenario.{
  alice, bob, owned, start, create_gold, give_to_bob, created, given, created_ok, created-handle,
  create_gold_valid, give_to_bob_valid, given_ok,
}

abbrev both : List (Msg chain)
both = Msg.create_denom create_gold ∷ (Msg.change_admin give_to_bob ∷ [])

given-handle : handle chain (Msg.change_admin give_to_bob) created ≡ (ok none, given)
unfolding handle
given-handle = >>=-ok (handle_change_admin chain give_to_bob) _ created given_ok

ran : Runs chain both start given
ran = Runs.took created-handle (Runs.took given-handle Runs.done)

Runs-Agrees_example :
    ArePermitted chain both (view chain start)
    × Agrees (view chain given) (transitions chain both (view chain start))
Runs-Agrees_example =
    Runs-Agrees chain-StoreLaws chain-AddressLaws chain-BankLaws chain-DenomLaws ran

alice-IsAdmin : IsAdmin chain created owned alice
alice-IsAdmin =
    let (_, _, _, admin, _, _, _, _) =
      handle_create_denom-effect chain chain-StoreLaws chain-AddressLaws chain-BankLaws
        chain-DenomLaws create_gold owned start created created_ok in
    admin

handle_change_admin-progress_example :
    (t : State chain) × (handle chain (Msg.change_admin give_to_bob) created ≡ (ok none, t))
    × IsAdmin chain t owned bob
handle_change_admin-progress_example =
    handle_change_admin-progress chain-StoreLaws chain-AddressLaws give_to_bob created
      give_to_bob_valid alice-IsAdmin

abbrev charged : State chain
charged = (charge_for_create_denom chain alice start).1

charge_ok : charge_for_create_denom chain alice start ≡ (ok tt, charged)
unfolding charge_for_create_denom charge_fee charge_gas get_params address_from_bech32 contains move
charge_ok = refl

gold_unknown :
    (d : Bytes) → get_token_denom chain alice (text "gold") ≡ ok d → find start.chain.known d ≡ none
unfolding get_token_denom token_denom find same contains validate_denom
gold_unknown d h =
    let same_denom : ok owned ≡ ok d = h in
    subst (λ x. find start.chain.known x ≡ none) (Outcome.ok-injective same_denom) refl

handle_create_denom-progress_example :
    (d : Bytes) × (t : State chain) × (get_token_denom chain alice (text "gold") ≡ ok d)
    × (handle chain (Msg.create_denom create_gold) start ≡ (ok (some d), t))
handle_create_denom-progress_example =
    handle_create_denom-progress {env = chain} create_gold start charged create_gold_valid refl
      gold_unknown charge_ok
