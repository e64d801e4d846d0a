-- ===== src/Simulation/Messages.antt =====
-- SimulateMsgCreateDenom, …MintDenom, …BurnDenom and …ChangeAdmin.
use tokenfactory.Base.{List, [], Option, none, some, if◌then◌else◌}
use tokenfactory.Base.Bytes.{Bytes, same}
use tokenfactory.Base.Outcome.{
  Outcome, Error, ok, err, panic, no_creator, no_admin_address, no_balance, same_admin,
}
use tokenfactory.Env.{Env, ℤ, pos, unset}
use tokenfactory.Types.Keys.{module_name}
use tokenfactory.Types.Denoms.{max_subdenom_length}
use tokenfactory.Types.Events.{
  type_msg_create_denom, type_msg_mint, type_msg_burn, type_msg_change_admin,
}
use tokenfactory.Types.Messages.{Msg}
use tokenfactory.Types.Messages.Construct.{type_of}
use tokenfactory.Keeper.Exec.{pure, lift, ◌>>=◌}
use tokenfactory.Keeper.State.{State}
use tokenfactory.Keeper.Params.{get_params}
use tokenfactory.Simulation.Random.{Random, rand_positive_int}
use tokenfactory.Simulation.Accounts.{
  Simulator, Draw, random_sim_account, random_sim_account_with_constraint,
  random_sim_account_with_min_coins, account_created_token_factory_denom,
  get_token_factory_denom_and_its_admin,
}

module _ {env : Env} (sim : Simulator env) where
  -- simulation.OperationInput: what the operations do not set to the same value
  pub record OperationInput : Type 0 where
    pub msg : Msg env
    pub msg_type : Bytes
    pub sim_account : sim.Account
    pub module_of : Bytes

  -- What an operation returns: simtypes.NoOpMsg with an error or none, or what
  -- simulation.GenAndDeliverTxWithRandFees makes of its input.
  pub data Operation : Type 0 where
    no_op : Bytes → Option Error → Operation
    deliver : OperationInput → Operation

  abbrev pub deliver_msg : sim.Account → Msg env → Operation
  deliver_msg acc m =
      deliver
        (record { msg = m; msg_type = type_of env m; sim_account = acc; module_of = module_name })

  -- `if err != nil { return simtypes.NoOpMsg(…), nil, err }` behind a call
  unfoldable pub or_no_op :
      {A : Type 0}
      → Bytes
      → (A → Draw sim Operation)
      → Outcome A × Random.Rand sim.random
      → Outcome Operation × Random.Rand sim.random
  or_no_op ty k (ok a, r) = k a r
  or_no_op ty k (err e, r) = (ok (no_op ty (some e)), r)
  or_no_op ty k (panic e, r) = (panic e, r)

  -- The account that has created a denom, with which three of the operations start.
  unfoldable pub with_creator :
      Bytes → State env → List sim.Account → (sim.Account → Draw sim Operation) → Draw sim Operation
  with_creator ty s accs k = do
    found ← random_sim_account_with_constraint sim accs (account_created_token_factory_denom sim s)
    elim found [ none ↦ pure (no_op ty (some no_creator)) | some acc ↦ k acc ]

  -- SimulateMsgCreateDenom
  unfoldable pub simulate_msg_create_denom : State env → List sim.Account → Draw sim Operation
  unfolding or_no_op
  simulate_msg_create_denom s accs = lift (get_params env s) >>= λ params r.
      or_no_op type_msg_create_denom
        (λ acc. do
          subdenom ← Random.rand_string_of_length sim.random max_subdenom_length
          pure (
              deliver_msg acc (
                Msg.create_denom
                  (record { sender = env.address_string (sim.address acc); subdenom = subdenom }))))
        (random_sim_account_with_min_coins sim s accs params.denom_creation_fee r)

  -- `mintAmount, err := …`, the error dropped: the amount is unset beside it.
  unfoldable pub value_or_unset : Outcome ℤ → Outcome ℤ
  value_or_unset (ok n) = ok n
  value_or_unset (err e) = ok unset
  value_or_unset (panic e) = panic e

  unfoldable pub mint_amount : Draw sim ℤ
  unfolding value_or_unset
  mint_amount r =
      let (n, r') = rand_positive_int sim.random (pos 1_000_000_000) r in (value_or_unset n, r')

  -- SimulateMsgMintDenom. An admin that is nil ends it without an error.
  unfoldable pub simulate_msg_mint_denom : State env → List sim.Account → Draw sim Operation
  unfolding or_no_op with_creator mint_amount
  simulate_msg_mint_denom s accs = with_creator type_msg_mint s accs λ acc r.
      or_no_op type_msg_mint
        (λ found. if same found.1 [] then pure (no_op type_msg_mint none) else (do
          amount ← mint_amount
          coin ← lift (sim.new_coin found.0 amount)
          pure (
              deliver_msg acc (
                Msg.mint (record {
                  sender = env.address_string found.1;
                  amount = coin;
                  mint_to_address = [];
                })))))
        (get_token_factory_denom_and_its_admin sim s acc r)

  -- SimulateMsgBurnDenom
  unfoldable pub simulate_msg_burn_denom : State env → List sim.Account → Draw sim Operation
  unfolding or_no_op with_creator
  simulate_msg_burn_denom s accs = with_creator type_msg_burn s accs λ acc r.
      or_no_op type_msg_burn
        (λ found.
          if same found.1 [] then pure (no_op type_msg_burn (some no_admin_address)) else (do
            empty ← lift (sim.is_zero (sim.get_balance s.chain found.1 found.0))
            if empty then pure (no_op type_msg_burn (some no_balance)) else λ r'.
                or_no_op type_msg_burn
                  (λ amount. do
                    coin ← lift (sim.new_coin found.0 amount)
                    pure (
                        deliver_msg acc (
                          Msg.burn (record {
                            sender = env.address_string found.1;
                            amount = coin;
                            burn_from_address = [];
                          }))))
                  (rand_positive_int sim.random ((sim.get_balance s.chain found.1 found.0).amount)
                    r')))
        (get_token_factory_denom_and_its_admin sim s acc r)

  -- SimulateMsgChangeAdmin
  unfoldable pub simulate_msg_change_admin : State env → List sim.Account → Draw sim Operation
  unfolding or_no_op with_creator
  simulate_msg_change_admin s accs = with_creator type_msg_change_admin s accs λ acc r.
      or_no_op type_msg_change_admin
        (λ found.
          if same found.1 []
          then pure (no_op type_msg_change_admin (some no_admin_address))
          else (do
            new_admin ← random_sim_account sim accs
            if same (env.address_string (sim.address new_admin)) (env.address_string found.1)
                then pure (no_op type_msg_change_admin (some same_admin))
                else pure (
                    deliver_msg acc (
                      Msg.change_admin (record {
                        sender = env.address_string found.1;
                        denom = found.0;
                        new_admin = env.address_string (sim.address new_admin);
                      })))))
        (get_token_factory_denom_and_its_admin sim s acc r)
