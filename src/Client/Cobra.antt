-- ===== src/Client/Cobra.antt =====
-- What the commands call of cobra and of the SDK's client package.
use tokenfactory.Base.{ℕ, zero, suc, ◌≡◌, List, [], ◌∷◌, length}
use tokenfactory.Base.Bytes.{Bytes}
use tokenfactory.Base.Outcome.{Outcome, ok, panic, index_out_of_range}
use tokenfactory.Env.{Env, Effect, Coin}
use tokenfactory.Types.Messages.{Msg}
use tokenfactory.Types.Authority.{DenomAuthorityMetadata}
use tokenfactory.Codec.Queries.{QueryDenomAuthorityMetadataRequest, QueryDenomsFromCreatorRequest}
use tokenfactory.Keeper.Exec.{Exec, lift, ◌>>◌}

-- `World` is all that a command can reach: flags, files, the node.
pub record Cli (env : Env) : Type 1 where
  pub World : Type 0
  pub Context : Type 0
  pub Factory : Type 0
  -- cobra.ExactArgs
  pub exact_args : ℕ → List Bytes → Outcome (Unit {0})
  -- client.GetClientTxContext, GetClientQueryContext
  pub get_client_tx_context : World → Outcome Context
  pub get_client_query_context : World → Outcome Context
  -- Context.GetFromAddress
  pub get_from_address : Context → Bytes
  -- tx.NewFactoryCLI(…).WithTxConfig(…).WithAccountRetriever(…)
  pub new_factory_cli : Context → Factory
  -- sdk.ParseCoinNormalized
  pub parse_coin_normalized : Bytes → Outcome Coin
  -- tx.GenerateOrBroadcastTxWithFactory
  pub generate_or_broadcast : Context → Factory → Msg env → Effect World (Unit {0})
  -- the query client's calls, and Context.PrintProto of their responses
  pub denom_authority_metadata :
      Context → QueryDenomAuthorityMetadataRequest → Effect World DenomAuthorityMetadata
  pub denoms_from_creator : Context → QueryDenomsFromCreatorRequest → Effect World (List Bytes)
  pub print_authority_metadata : Context → DenomAuthorityMetadata → Effect World (Unit {0})
  pub print_denoms : Context → List Bytes → Effect World (Unit {0})

-- What the commands rely on: ExactArgs accepts as many arguments as it says, and no others.
pub record CliLaws (env : Env) (cli : Cli env) : Type 0 where
  pub accepts : (n : ℕ) (args : List Bytes) → length args ≡ n → cli.exact_args n args ≡ ok tt
  pub only : (n : ℕ) (args : List Bytes) → cli.exact_args n args ≡ ok tt → length args ≡ n

-- `args[n]`
unfoldable pub arg : ℕ → List Bytes → Outcome Bytes
arg n [] = panic index_out_of_range
arg zero (a ∷ rest) = ok a
arg (suc n) (a ∷ rest) = arg n rest

module _ {env : Env} (cli : Cli env) where
  -- cobra.Command, as far as it decides what a call does: `Args`, then `RunE`.
  pub record Command : Type 0 where
    pub args : List Bytes → Outcome (Unit {0})
    pub run_e : List Bytes → Exec cli.World (Unit {0})

  -- A call of the command.
  unfoldable pub execute : Command → List Bytes → Exec cli.World (Unit {0})
  execute c args = lift (c.args args) >> c.run_e args
