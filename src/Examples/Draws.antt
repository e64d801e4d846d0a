-- ===== src/Examples/Draws.antt =====
-- The theorems on the simulated messages, applied to draws on the state behind a CreateDenom.
use tokenfactory.Base.{ℕ, ◌≡◌, ◌≢◌, ◌<◌, ◌≤◌, refl, List, [], ◌∷◌, Elem, inl, inr, none}
use tokenfactory.Base.Bytes.{Bytes, text, same, contains}
use tokenfactory.Base.Outcome.{ok}
use tokenfactory.Env.{pos}
use tokenfactory.Types.Keys.{module_name, creator_prefix, denom_prefix_store}
use tokenfactory.Types.Denoms.{get_token_denom, token_denom}
use tokenfactory.Types.Authority.{authority_validate}
use tokenfactory.Types.Messages.{Msg}
use tokenfactory.Codec.Authority.{
  marshal, unmarshal, unmarshal_from, unmarshal_field, unmarshal_admin,
}
use tokenfactory.Codec.Varint.{encode_varint, encode_groups, read_varint, read_varint_from}
use tokenfactory.Keeper.Params.{get_params}
use tokenfactory.Keeper.Admins.{get_authority_metadata, set_authority_metadata}
use tokenfactory.Keeper.Creators.{add_denom_from_creator}
use tokenfactory.Keeper.CreateDenom.{
  create_denom, validate_create_denom, charge_for_create_denom, charge_fee, charge_gas,
  create_denom_after_validation, register_metadata,
}
use tokenfactory.Keeper.State.{State}
use tokenfactory.Keeper.MsgServer.{handle, handle_create_denom}
use tokenfactory.Keeper.MsgServer.Authority.{IsAdmin}
use tokenfactory.Simulation.Goes.{handle-simulate_msg_change_admin}
use tokenfactory.Simulation.Random.{
  rand_lt_bound, rand_lte_bound, rand_select, rand_positive_int, minus_one, plus_one, element_at,
}
use tokenfactory.Simulation.Accounts.{
  filtered, random_sim_account, random_sim_account_with_constraint,
  account_created_token_factory_denom, gather_all_keys_from_store,
  get_token_factory_denom_and_its_admin,
}
use tokenfactory.Simulation.Messages.{
  OperationInput, deliver, or_no_op, with_creator, value_or_unset, mint_amount,
  simulate_msg_mint_denom, simulate_msg_burn_denom, simulate_msg_change_admin,
}
use tokenfactory.Simulation.Deliveries.{Sends}
use tokenfactory.Simulation.Amounts.{
  mint_of, burn_of, simulate_msg_mint_denom-Sends, simulate_msg_burn_denom-Sends,
}
use tokenfactory.Simulation.Handover.{give_to, simulate_msg_change_admin-Sends}
use tokenfactory.Examples.Store.{lookup, iterate, entry, strip, delete}
use tokenfactory.Examples.Chain.{
  chain, find, address_from_bech32, validate_denom, move, equal_zero, chain-AddressLaws,
  chain-StoreLaws, decodes-shape,
}
use tokenfactory.Examples.Scenario.{alice, bob, owned, created}
use tokenfactory.Examples.Tools.{simulator, simulator-SimulatorLaws, bounded, intn, new_coin}

abbrev accounts : List Bytes
accounts = text "alice" ∷ (text "carol" ∷ (text "bob" ∷ []))

-- What is handed over beside the account "alice".
abbrev handed : Msg chain → Bytes → OperationInput simulator
handed m ty = record { msg = m; msg_type = ty; sim_account = text "alice"; module_of = module_name }

-- The three draws from the count 0: a mint of 3, a burn of 3, a change of the admin to "bob".
drawn :
    (simulate_msg_mint_denom simulator created accounts 0
      ≡ (ok (deliver (handed (mint_of chain 3 owned alice) (text "tf_mint"))), 3))
    × (simulate_msg_burn_denom simulator created accounts 0
        ≡ (ok (deliver (handed (burn_of chain 3 owned alice) (text "tf_burn"))), 3))
    × (simulate_msg_change_admin simulator created accounts 0
        ≡ (ok (deliver (handed (give_to chain bob owned alice) (text "change_admin"))), 3))
unfolding simulate_msg_burn_denom simulate_msg_change_admin equal_zero simulate_msg_mint_denom
    with_creator or_no_op mint_amount value_or_unset filtered random_sim_account
    random_sim_account_with_constraint account_created_token_factory_denom
    gather_all_keys_from_store get_token_factory_denom_and_its_admin rand_lt_bound rand_lte_bound
    rand_select rand_positive_int minus_one plus_one element_at iterate entry strip delete lookup
    get_authority_metadata denom_prefix_store authority_validate handle_create_denom create_denom
    validate_create_denom get_token_denom token_denom contains same charge_for_create_denom
    charge_fee charge_gas get_params move create_denom_after_validation register_metadata
    add_denom_from_creator find address_from_bech32 validate_denom marshal encode_varint
    encode_groups unmarshal unmarshal_from unmarshal_field unmarshal_admin read_varint
    read_varint_from creator_prefix set_authority_metadata bounded intn new_coin
drawn = (refl, refl, refl)

simulate_msg_mint_denom-Sends_example :
    (d addr : Bytes) × (k : ℕ) × Sends simulator created accounts
      (handed (mint_of chain 3 owned alice) (text "tf_mint"))
      d
      addr
      (mint_of chain k d (111 ∷ addr))
    × (1 ≤ k)
    × (k < 1_000_000_000)
simulate_msg_mint_denom-Sends_example =
    simulate_msg_mint_denom-Sends simulator simulator-SimulatorLaws chain-AddressLaws created
      accounts 0 3 drawn.0

simulate_msg_burn_denom-Sends_example :
    (d addr : Bytes) × (m k : ℕ) × Sends simulator created accounts
      (handed (burn_of chain 3 owned alice) (text "tf_burn"))
      d
      addr
      (burn_of chain k d (111 ∷ addr))
    × (pos 9 ≡ pos m)
    × (1 ≤ k)
    × (k ≤ m)
    × (2 ≤ m → k < m)
simulate_msg_burn_denom-Sends_example =
    simulate_msg_burn_denom-Sends simulator simulator-SimulatorLaws chain-AddressLaws created
      accounts 0 3 drawn.1

simulate_msg_change_admin-Sends_example :
    (d addr : Bytes) × (new : Bytes) × Elem new accounts
    × Sends simulator created accounts
        (handed (give_to chain bob owned alice) (text "change_admin"))
        d
        addr
        (give_to chain (111 ∷ new) d (111 ∷ addr))
    × ((111 ∷ new) ≢ (111 ∷ addr))
simulate_msg_change_admin-Sends_example =
    simulate_msg_change_admin-Sends simulator chain-AddressLaws created accounts 0 3 drawn.2

accounts_decode :
    (a : Bytes) → Elem a accounts → (b : Bytes) × (address_from_bech32 (111 ∷ a) ≡ ok b)
unfolding address_from_bech32 contains
accounts_decode a (inl e) = (text "alice", rw e)
accounts_decode a (inr (inl e)) = (text "carol", rw e)
accounts_decode a (inr (inr (inl e))) = (text "bob", rw e)
accounts_decode a (inr (inr (inr h))) = absurd h

handle-simulate_msg_change_admin_example :
    (d new : Bytes) × (t : State chain) × Elem new accounts
    × (handle chain (give_to chain bob owned alice) created ≡ (ok none, t))
    × IsAdmin chain t d (111 ∷ new)
handle-simulate_msg_change_admin_example =
    handle-simulate_msg_change_admin chain-StoreLaws chain-AddressLaws simulator created accounts
      accounts_decode (λ d x a h e. decodes-shape x e) 0 3 drawn.2
