-- ===== src/Client/Query.antt =====
-- client/cli/query.go: the commands that make a query.
use tokenfactory.Base.{List, [], ◌∷◌}
use tokenfactory.Env.{Env}
use tokenfactory.Keeper.Exec.{lift, asks, ◌>>=◌}
use tokenfactory.Client.Cobra.{Cli, Command, arg}

module _ {env : Env} (cli : Cli env) where
  -- GetCmdDenomAuthorityMetadata
  unfoldable pub get_cmd_denom_authority_metadata : Command cli
  unfolding arg
  get_cmd_denom_authority_metadata = record {
    args = cli.exact_args 1;
    run_e = λ args. do
      client_ctx ← asks cli.get_client_query_context
      denom ← lift (arg 0 args)
      res ← cli.denom_authority_metadata client_ctx (record { denom = denom })
      cli.print_authority_metadata client_ctx res;
  }

  -- GetCmdDenomsFromCreator
  unfoldable pub get_cmd_denoms_from_creator : Command cli
  unfolding arg
  get_cmd_denoms_from_creator = record {
    args = cli.exact_args 1;
    run_e = λ args. do
      client_ctx ← asks cli.get_client_query_context
      creator ← lift (arg 0 args)
      res ← cli.denoms_from_creator client_ctx (record { creator = creator })
      cli.print_denoms client_ctx res;
  }

  -- GetQueryCmd: what it adds to the module's command.
  unfoldable pub get_query_cmd : List (Command cli)
  unfolding get_cmd_denom_authority_metadata get_cmd_denoms_from_creator
  get_query_cmd = get_cmd_denom_authority_metadata ∷ (get_cmd_denoms_from_creator ∷ [])
