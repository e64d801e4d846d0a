-- ===== src/Client/Tx.antt =====
-- client/cli/tx.go: the commands that send a message.
use tokenfactory.Base.{List, [], ◌∷◌}
use tokenfactory.Env.{Env}
use tokenfactory.Types.Messages.{Msg}
use tokenfactory.Types.Messages.Construct.{
  new_msg_create_denom, new_msg_mint, new_msg_burn, new_msg_change_admin,
}
use tokenfactory.Keeper.Exec.{lift, asks, ◌>>=◌}
use tokenfactory.Client.Cobra.{Cli, Command, arg}

module _ {env : Env} (cli : Cli env) where
  -- NewCreateDenomCmd
  unfoldable pub new_create_denom_cmd : Command cli
  unfolding arg
  new_create_denom_cmd = record {
    args = cli.exact_args 1;
    run_e = λ args. do
      client_ctx ← asks cli.get_client_tx_context
      subdenom ← lift (arg 0 args)
      cli.generate_or_broadcast client_ctx (cli.new_factory_cli client_ctx) (
          Msg.create_denom
            (new_msg_create_denom (env.address_string (cli.get_from_address client_ctx)) subdenom));
  }

  -- NewMintCmd
  unfoldable pub new_mint_cmd : Command cli
  unfolding arg
  new_mint_cmd = record {
    args = cli.exact_args 1;
    run_e = λ args. do
      client_ctx ← asks cli.get_client_tx_context
      text ← lift (arg 0 args)
      coin ← lift (cli.parse_coin_normalized text)
      cli.generate_or_broadcast client_ctx (cli.new_factory_cli client_ctx)
          (Msg.mint (new_msg_mint (env.address_string (cli.get_from_address client_ctx)) coin));
  }

  -- NewBurnCmd
  unfoldable pub new_burn_cmd : Command cli
  unfolding arg
  new_burn_cmd = record {
    args = cli.exact_args 1;
    run_e = λ args. do
      client_ctx ← asks cli.get_client_tx_context
      text ← lift (arg 0 args)
      coin ← lift (cli.parse_coin_normalized text)
      cli.generate_or_broadcast client_ctx (cli.new_factory_cli client_ctx)
          (Msg.burn (new_msg_burn (env.address_string (cli.get_from_address client_ctx)) coin));
  }

  -- NewChangeAdminCmd: it takes one argument and reads two.
  unfoldable pub new_change_admin_cmd : Command cli
  unfolding arg
  new_change_admin_cmd = record {
    args = cli.exact_args 1;
    run_e = λ args. do
      client_ctx ← asks cli.get_client_tx_context
      denom ← lift (arg 0 args)
      new_admin ← lift (arg 1 args)
      cli.generate_or_broadcast client_ctx (cli.new_factory_cli client_ctx) (
          Msg.change_admin (
            new_msg_change_admin (env.address_string (cli.get_from_address client_ctx)) denom
              new_admin));
  }

  -- GetTxCmd: what it adds to the module's command.
  unfoldable pub get_tx_cmd : List (Command cli)
  unfolding new_create_denom_cmd new_mint_cmd new_burn_cmd new_change_admin_cmd
  get_tx_cmd = new_create_denom_cmd ∷ (new_mint_cmd ∷ (new_burn_cmd ∷ (new_change_admin_cmd ∷ [])))
