-- ===== src/Env/Kinds.antt =====
-- types/expected_keepers.go and the types of the SDK that the module handles.
use tokenfactory.Base.{ℕ, Bool, Option, List}
use tokenfactory.Base.Bytes.{Bytes}
use tokenfactory.Base.Outcome.{Outcome}

-- sdk.Int: an integer with a sign, or the nil of an unset field. `negsuc n` is -(n + 1).
pub data ℤ : Type 0 where
  unset : ℤ
  pos : ℕ → ℤ
  negsuc : ℕ → ℤ

pub record Coin : Type 0 where
  pub denom : Bytes
  pub amount : ℤ

-- sdk.Coins is a slice: `none` is nil, `some []` the empty slice that is not nil.
abbrev pub Coins : Type 0
Coins = Option (List Coin)

-- The value behind an `interface{}`, as far as the code asserts its type.
pub data Value : Type 0 where
  coins : Coins → Value
  uint64 : ℕ → Value
  other : Value

-- paramtypes.ParamSetPair: a key, the value that the field holds, and the validator.
pub record ParamPair : Type 0 where
  pub key : Bytes
  pub value : Value
  pub validator : Value → Outcome (Unit {0})

-- What a call of a keeper does to the state outside the module: it ends with an outcome, and what it
-- has written before that stays written.
abbrev pub Effect : Type 0 → Type 0 → Type 0
Effect Chain A = Chain → Outcome A × Chain

-- `Chain` is all state but the module's own store: bank, accounts, community pool, parameters, gas.
pub record Env : Type 1 where
  pub Store : Type 0
  pub Chain : Type 0
  -- banktypes.Metadata
  pub Metadata : Type 0
  pub Account : Type 0
  -- KVStore.Get and Set, and prefix.NewStore(store, p).Iterator(nil, nil) with the prefix cut off
  pub kv_get : Store → Bytes → Option Bytes
  pub kv_set : Bytes → Bytes → Store → Store
  pub kv_iterate : Bytes → Store → List (Bytes × Bytes)
  -- sdk.ValidateDenom, sdk.AccAddressFromBech32, AccAddress.String
  pub validate_denom : Bytes → Outcome (Unit {0})
  pub address_from_bech32 : Bytes → Outcome Bytes
  pub address_string : Bytes → Bytes
  -- sdk.NewCoins, Coins.Validate, Coin.IsValid, Coin.String
  pub new_coins : List Coin → Outcome Coins
  pub coins_validate : Coins → Outcome (Unit {0})
  pub coin_is_valid : Coin → Outcome Bool
  -- ℤ.Equal(sdk.ZeroInt()), which panics on an unset integer
  pub equal_zero : ℤ → Outcome Bool
  pub coin_string : Coin → Bytes
  -- banktypes.Metadata{DenomUnits: …, Base: …}, its field Base, Validate and String
  pub new_metadata : List (Bytes × ℕ) → Bytes → Metadata
  pub base : Metadata → Bytes
  pub metadata_validate : Metadata → Outcome (Unit {0})
  pub metadata_string : Metadata → Bytes
  -- BankKeeper
  pub get_denom_metadata : Chain → Bytes → Option Metadata
  pub set_denom_metadata : Metadata → Chain → Chain
  pub has_supply : Chain → Bytes → Bool
  pub mint_coins : Bytes → Coins → Effect Chain (Unit {0})
  pub burn_coins : Bytes → Coins → Effect Chain (Unit {0})
  pub send_coins_from_module_to_account : Bytes → Bytes → Coins → Effect Chain (Unit {0})
  pub send_coins_from_account_to_module : Bytes → Bytes → Coins → Effect Chain (Unit {0})
  pub send_coins : Bytes → Bytes → Coins → Effect Chain (Unit {0})
  -- AccountKeeper; the second is the type assertion to ModuleAccountI
  pub get_account : Chain → Bytes → Option Account
  pub is_module_account : Account → Bool
  pub get_module_account : Bytes → Effect Chain (Unit {0})
  -- DistrKeeper, GasMeter().ConsumeGas
  pub fund_community_pool : Coins → Bytes → Effect Chain (Unit {0})
  pub consume_gas : ℕ → Effect Chain (Unit {0})
  -- Subspace.GetParamSet for the two parameters, which panics where one is missing or cannot be read,
  -- and SetParamSet
  pub get_param_set : Chain → Outcome (Coins × ℕ)
  pub set_param_set : List ParamPair → Effect Chain (Unit {0})
