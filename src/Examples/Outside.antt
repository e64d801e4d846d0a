-- ===== src/Examples/Outside.antt =====
-- The theorems on the gateway, the commands and the weights, applied to the tools of Examples.Tools.
use tokenfactory.Base.{◌≡◌, ◌≢◌, refl, List, [], ◌∷◌, some}
use tokenfactory.Base.Bytes.{Bytes, text, same, split, add_to_head}
use tokenfactory.Base.Outcome.{ok}
use tokenfactory.Keeper.MsgServer.Refuses.{Refuses}
use tokenfactory.Client.Cobra.{execute}
use tokenfactory.Client.Tx.{new_create_denom_cmd, new_mint_cmd, new_burn_cmd, new_change_admin_cmd}
use tokenfactory.Client.Laws.{
  Ending, CreatesDenom, Mints, Burns, tx_cmds-Ending, new_change_admin_cmd-Refuses,
}
use tokenfactory.Gateway.Runtime.{QueryServer, path_param}
use tokenfactory.Gateway.Requests.{required, string_param}
use tokenfactory.Gateway.Routes.{pattern_query_denom_authority_metadata}
use tokenfactory.Types.Denoms.{get_token_denom, deconstruct_denom}
use tokenfactory.Examples.Mux.{
  routes, routes-MuxLaws, run_ops, step, step_at_end, pool_at, behind_first,
}
use tokenfactory.Gateway.Served.{keeper_server, denom_route-never_ours}
use tokenfactory.Simulation.Weights.{weights}
use tokenfactory.Simulation.Drawn.{supplied_or, only_default, weights_lem}
use tokenfactory.Examples.Chain.{chain}
use tokenfactory.Examples.Scenario.{alice}
use tokenfactory.Examples.Tools.{
  command_line, command_line-CliLaws, runtime, runtime-RuntimeLaws, app_params,
  app_params-AppParamsLaws, supplied,
}

abbrev gold : List Bytes
gold = text "gold" ∷ []

tx_cmds-Ending_example :
    Ending command_line []
      (CreatesDenom command_line gold)
      (execute command_line (new_create_denom_cmd command_line) gold [])
    × Ending command_line []
        (Mints command_line gold)
        (execute command_line (new_mint_cmd command_line) gold [])
    × Ending command_line []
        (Burns command_line gold)
        (execute command_line (new_burn_cmd command_line) gold [])
tx_cmds-Ending_example = tx_cmds-Ending command_line command_line-CliLaws [] gold

new_change_admin_cmd-Refuses_example :
    Refuses (execute command_line (new_change_admin_cmd command_line) gold) []
new_change_admin_cmd-Refuses_example =
    new_change_admin_cmd-Refuses command_line command_line-CliLaws [] gold

-- The keeper behind the gateway: a context is the state that a request finds.
abbrev server : QueryServer runtime
server = keeper_server chain runtime (λ s. s)

abbrev params : List (Bytes × Bytes)
params = (text "creator", alice) ∷ []

-- "/osmosis/tokenfactory/v1beta1/denoms/uosmo/authority_metadata"
abbrev uosmo_url : Bytes
uosmo_url = text "/osmosis/tokenfactory/v1beta1/denoms/uosmo/authority_metadata"

uosmo_matched :
    routes.match_path pattern_query_denom_authority_metadata uosmo_url
    ≡ some ((text "denom", text "uosmo") ∷ [])
unfolding run_ops step step_at_end pool_at behind_first split add_to_head same
uosmo_matched = refl

uosmo_asked :
    string_param runtime (text "denom") ((text "denom", text "uosmo") ∷ []) ≡ ok (text "uosmo")
unfolding string_param required path_param same
uosmo_asked = refl

denom_route-never_ours_example :
    ((c s : Bytes) → get_token_denom chain c s ≢ ok (text "uosmo"))
    × ((x s : Bytes) → deconstruct_denom chain (text "uosmo") ≢ ok (x, s))
denom_route-never_ours_example =
    denom_route-never_ours chain runtime runtime-RuntimeLaws routes routes-MuxLaws uosmo_url
      (text "uosmo") uosmo_matched uosmo_asked

weights_lem_example :
    weights app_params 100 ≡ record { create_denom = 100; mint_denom = 5; burn_denom = 0 }
unfolding supplied_or only_default supplied same
weights_lem_example = weights_lem app_params app_params-AppParamsLaws 100
