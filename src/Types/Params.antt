-- ===== src/Types/Params.antt =====
-- types/params.go: the parameters, their validators and their pairs for the parameter subspace.
use tokenfactory.Base.{ℕ, List, [], ◌∷◌, none}
use tokenfactory.Base.Bytes.{Bytes, text}
use tokenfactory.Base.Outcome.{
  Outcome, ok, err, invalid_parameter_type, invalid_creation_fee, ◌>>=◌, wrap,
}
use tokenfactory.Env.{Env, Coins, Value, coins, uint64, other, ParamPair}

pub record Params : Type 0 where
  pub denom_creation_fee : Coins
  pub denom_creation_gas_consume : ℕ

abbrev pub key_denom_creation_fee : Bytes
key_denom_creation_fee = text "DenomCreationFee"

abbrev pub key_denom_creation_gas_consume : Bytes
key_denom_creation_gas_consume = text "DenomCreationGasConsume"

abbrev pub default_creation_gas_fee : ℕ
default_creation_gas_fee = 1_000_000

-- NewParams
abbrev pub new_params : Coins → ℕ → Params
new_params fee gas = record { denom_creation_fee = fee; denom_creation_gas_consume = gas }

module _ (env : Env) where
  -- DefaultParams: `sdk.NewCoins()` may in principle panic.
  unfoldable pub default_params : Outcome Params
  default_params = do fee ← env.new_coins []; ok (new_params fee default_creation_gas_fee)

  -- validateDenomCreationFee
  unfoldable pub validate_denom_creation_fee : Value → Outcome (Unit {0})
  validate_denom_creation_fee (coins v) = wrap invalid_creation_fee (env.coins_validate v)
  validate_denom_creation_fee (uint64 n) = err invalid_parameter_type
  validate_denom_creation_fee other = err invalid_parameter_type

  -- validateDenomCreationGasConsume
  unfoldable pub validate_denom_creation_gas_consume : Value → Outcome (Unit {0})
  validate_denom_creation_gas_consume (coins v) = err invalid_parameter_type
  validate_denom_creation_gas_consume (uint64 n) = ok tt
  validate_denom_creation_gas_consume other = err invalid_parameter_type

  -- Params.Validate
  unfoldable pub params_validate : Params → Outcome (Unit {0})
  unfolding validate_denom_creation_fee
  params_validate p = validate_denom_creation_fee (coins p.denom_creation_fee)

  -- ParamSetPairs
  unfoldable pub param_set_pairs : Params → List ParamPair
  unfolding validate_denom_creation_fee validate_denom_creation_gas_consume
  param_set_pairs p =
      record {
        key = key_denom_creation_fee;
        value = coins p.denom_creation_fee;
        validator = validate_denom_creation_fee;
      }
      ∷ (record {
        key = key_denom_creation_gas_consume;
        value = uint64 p.denom_creation_gas_consume;
        validator = validate_denom_creation_gas_consume;
      }
          ∷ [])

  -- ParamKeyTable: the pairs of the zero Params, of which the subspace keeps keys and validators.
  unfoldable pub param_key_table : List ParamPair
  unfolding param_set_pairs
  param_key_table =
      param_set_pairs (record { denom_creation_fee = none; denom_creation_gas_consume = 0 })
