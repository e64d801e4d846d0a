-- ===== src/Keeper/CreateDenom.antt =====
-- keeper/createdenom.go: validation, the charge, and the writes of a new denom.
pub mod Laws
pub mod Metadata
use tokenfactory.Base.{ℕ, [], ◌∷◌, Option, none, some, Bool, true, false, not, ◌==◌, if◌then◌else◌}
use tokenfactory.Base.Bytes.{Bytes}
use tokenfactory.Base.Outcome.{native_subdenom, denom_exists}
use tokenfactory.Env.{Env, Coins}
use tokenfactory.Types.Denoms.{get_token_denom}
use tokenfactory.Keeper.Exec.{pure, lift, gets, asks, modify, fail_if, ◌>>=◌, ◌>>◌}
use tokenfactory.Keeper.State.{State, Action, call}
use tokenfactory.Keeper.Params.{get_params}
use tokenfactory.Keeper.Admins.{set_authority_metadata}
use tokenfactory.Keeper.Creators.{add_denom_from_creator}

-- The second result of a lookup, `found`.
abbrev pub is_some : {A : Type 0} → Option A → Bool
is_some none = false
is_some (some a) = true

module _ (env : Env) where
  -- validateCreateDenom
  unfoldable pub validate_create_denom : Bytes → Bytes → Action env Bytes
  validate_create_denom creator_addr subdenom = do
    native ← gets (λ s. env.has_supply s.chain subdenom)
    fail_if native native_subdenom
    denom ← lift (get_token_denom env creator_addr subdenom)
    found ← gets (λ s. is_some (env.get_denom_metadata s.chain denom))
    fail_if found denom_exists
    pure denom

  -- `if params.DenomCreationFee != nil { … }`
  unfoldable pub charge_fee : Coins → Bytes → Action env (Unit {0})
  charge_fee none creator_addr = pure tt
  charge_fee (some fee) creator_addr = do
    acc_addr ← lift (env.address_from_bech32 creator_addr)
    call env (env.fund_community_pool (some fee) acc_addr)

  -- `if params.DenomCreationGasConsume != 0 { … }`
  unfoldable pub charge_gas : ℕ → Action env (Unit {0})
  charge_gas gas = if gas == 0 then pure tt else call env (env.consume_gas gas)

  -- chargeForCreateDenom
  unfoldable pub charge_for_create_denom : Bytes → Action env (Unit {0})
  unfolding charge_fee charge_gas
  charge_for_create_denom creator_addr = do
    params ← asks (get_params env)
    charge_fee params.denom_creation_fee creator_addr
    charge_gas params.denom_creation_gas_consume

  -- The part of `createDenomAfterValidation` that registers the denom with the bank.
  unfoldable pub register_metadata : Bytes → State env → State env
  register_metadata denom s =
      if is_some (env.get_denom_metadata s.chain denom) then s else record s {
        chain = env.set_denom_metadata (env.new_metadata ((denom, 0) ∷ []) denom) s.chain;
      }

  -- createDenomAfterValidation
  unfoldable pub create_denom_after_validation : Bytes → Bytes → Action env (Unit {0})
  unfolding register_metadata
  create_denom_after_validation creator_addr denom = do
    modify (register_metadata denom)
    set_authority_metadata env denom (record { admin = creator_addr })
    add_denom_from_creator env creator_addr denom

  -- CreateDenom. Beside an error of its last step the source returns the denom too; its one caller
  -- drops it.
  unfoldable pub create_denom : Bytes → Bytes → Action env Bytes
  create_denom creator_addr subdenom = do
    denom ← validate_create_denom creator_addr subdenom
    charge_for_create_denom creator_addr
    create_denom_after_validation creator_addr denom
    pure denom
