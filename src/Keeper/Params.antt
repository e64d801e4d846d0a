-- ===== src/Keeper/Params.antt =====
-- keeper/params.go
use tokenfactory.Base.Outcome.{Outcome, ok, ◌>>=◌}
use tokenfactory.Env.{Env}
use tokenfactory.Types.Params.{Params, new_params, param_set_pairs}
use tokenfactory.Keeper.State.{State, Action, call}

module _ (env : Env) where
  -- GetParams
  unfoldable pub get_params : State env → Outcome Params
  get_params s = do (fee, gas) ← env.get_param_set s.chain; ok (new_params fee gas)

  -- SetParams
  unfoldable pub set_params : Params → Action env (Unit {0})
  set_params p = call env (env.set_param_set (param_set_pairs env p))
