-- ===== src/Simulation/Accounts.antt =====
-- The choice of an account, and of a denom and its admin.
use tokenfactory.Base.{
  ℕ, List, [], ◌∷◌, length, Bool, true, false, ◌&&◌, not, if◌then◌else◌, map, Option, none, some,
}
use tokenfactory.Base.Bytes.{Bytes}
use tokenfactory.Base.Outcome.{Outcome, Error, err, no_min_balance}
use tokenfactory.Env.{Env, Coin, Coins, pos, ℤ}
use tokenfactory.Types.Keys.{creator_prefix}
use tokenfactory.Keeper.Exec.{Exec, pure, lift, ◌>>=◌}
use tokenfactory.Keeper.State.{State, prefix_iterate}
use tokenfactory.Keeper.Admins.{get_authority_metadata}
use tokenfactory.Simulation.Random.{Random, element_at, rand_select}

-- simtypes.Account, and what the simulation calls beside the keeper: the bank's balances, coins.
pub record Simulator (env : Env) : Type 1 where
  pub random : Random
  pub Account : Type 0
  pub address : Account → Bytes
  -- BankKeeper.SpendableCoins and GetBalance
  pub spendable_coins : env.Chain → Bytes → Coins
  pub get_balance : env.Chain → Bytes → Bytes → Coin
  -- Coins.IsAllGTE and DenomsSubsetOf, Coin.IsZero, sdk.NewCoin
  pub is_all_gte : Coins → Coins → Bool
  pub denoms_subset_of : Coins → Coins → Bool
  pub is_zero : Coin → Outcome Bool
  pub new_coin : Bytes → ℤ → Outcome Coin
  -- simappparams.DefaultWeightMsgSend
  pub default_weight_msg_send : ℕ

-- The loop that keeps the accounts with the constraint.
unfoldable pub filtered : {A : Type 0} → (A → Bool) → List A → List A
filtered f [] = []
filtered f (a ∷ accounts) = let rest = filtered f accounts in if f a then a ∷ rest else rest

-- `len(xs) == 0`, and the iterator's `Valid()`
abbrev pub is_empty : {A : Type 0} → List A → Bool
is_empty [] = true
is_empty (x ∷ xs) = false

module _ {env : Env} (sim : Simulator env) where
  abbrev pub Draw : Type 0 → Type 0
  Draw A = let rnd = sim.random in Exec rnd.Rand A

  -- randomSimAccount
  unfoldable pub random_sim_account : List sim.Account → Draw sim.Account
  random_sim_account accs = do
    idx ← (let rnd = sim.random in rnd.intn (pos (length accs)))
    lift (element_at idx accs)

  -- RandomSimAccountWithConstraint: the account, or that there is none.
  unfoldable pub random_sim_account_with_constraint :
      List sim.Account → (sim.Account → Bool) → Draw (Option sim.Account)
  unfolding filtered random_sim_account
  random_sim_account_with_constraint accounts f =
      if is_empty (filtered f accounts)
      then pure none
      else (do acc ← random_sim_account (filtered f accounts); pure (some acc))

  -- `if !found { return …, e }`
  unfoldable pub found_or : {A : Type 0} → Error → Option A → Draw A
  found_or e none = lift (err e)
  found_or e (some a) = pure a

  -- RandomSimAccountWithMinCoins
  unfoldable pub random_sim_account_with_min_coins :
      State env → List sim.Account → Coins → Draw sim.Account
  unfolding found_or
  random_sim_account_with_min_coins s accounts coins = do
    acc ← random_sim_account_with_constraint accounts (λ a.
        sim.is_all_gte (sim.spendable_coins s.chain (sim.address a)) coins
        && sim.denoms_subset_of coins (sim.spendable_coins s.chain (sim.address a)))
    found_or no_min_balance acc

  -- accountCreatedTokenFactoryDenom
  unfoldable pub account_created_token_factory_denom : State env → sim.Account → Bool
  account_created_token_factory_denom s acc =
      not (is_empty (prefix_iterate env (creator_prefix (env.address_string (sim.address acc))) s))

  -- gatherAllKeysFromStore, of a prefix store
  unfoldable pub gather_all_keys_from_store : Bytes → State env → List Bytes
  gather_all_keys_from_store prefix s = map (λ e. e.0) (prefix_iterate env prefix s)

  -- getTokenFactoryDenomAndItsAdmin
  unfoldable pub get_token_factory_denom_and_its_admin :
      State env → sim.Account → Draw (Bytes × Bytes)
  unfolding gather_all_keys_from_store
  get_token_factory_denom_and_its_admin s acc = do
    denom ←
        rand_select sim.random
          (gather_all_keys_from_store (creator_prefix (env.address_string (sim.address acc))) s)
    auth_data ← lift (get_authority_metadata env denom s)
    addr ← lift (env.address_from_bech32 auth_data.admin)
    pure (denom, addr)
