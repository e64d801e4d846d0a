-- ===== src/Keeper/Invariant/Handlers.antt =====
-- The handlers that write nothing of the module's own keep the invariant, however they end.
use tokenfactory.Base.{◌≡◌, refl, ◌∙◌, none, some, inl, inr, ℕ}
use tokenfactory.Base.Bytes.{Bytes, same-cases}
use tokenfactory.Env.{Env, BankLaws, Coin, Coins}
use tokenfactory.Keeper.Exec.{modify}
use tokenfactory.Keeper.State.{emit}
use tokenfactory.Keeper.BankActions.{mint_to, burn_from, force_transfer_coins}
use tokenfactory.Types.Events.{Event}
use tokenfactory.Types.Messages.{MsgMint, MsgBurn, MsgForceTransfer, MsgSetDenomMetadata}
use tokenfactory.Keeper.CreateDenom.{charge_fee, charge_gas, charge_for_create_denom}
use tokenfactory.Keeper.MsgServer.{
  check_admin, handle_mint, handle_burn, handle_force_transfer, handle_set_denom_metadata,
}
use tokenfactory.Keeper.Invariant.Calls.{Step-chain, Keeps, Keeps-pure, keeps_rules}

module _ (env : Env) (bank : BankLaws env) where
  pub check_admin-Keeps : (d x : Bytes) → Keeps env (check_admin env d x)
  unfolding check_admin
  check_admin-Keeps d x = search keeps_rules

  mint_to-Keeps : (c : Coin) (to : Bytes) → Keeps env (mint_to env c to)
  unfolding mint_to
  mint_to-Keeps c to =
      search (keeps_rules, bank.get-mint_coins, bank.get-send_coins_from_module_to_account) depth 12

  burn_from-Keeps : (c : Coin) (from : Bytes) → Keeps env (burn_from env c from)
  unfolding burn_from
  burn_from-Keeps c from =
      search (keeps_rules, bank.get-burn_coins, bank.get-send_coins_from_account_to_module) depth 12

  force_transfer_coins-Keeps :
      (c : Coin) (from to : Bytes) → Keeps env (force_transfer_coins env c from to)
  unfolding force_transfer_coins
  force_transfer_coins-Keeps c from to = search (keeps_rules, bank.get-send_coins) depth 12

  charge_fee-Keeps : (fee : Coins) (c : Bytes) → Keeps env (charge_fee env fee c)
  unfolding charge_fee
  charge_fee-Keeps none c = Keeps-pure env tt
  charge_fee-Keeps (some fee) c = search (keeps_rules, bank.get-fund_community_pool)

  charge_gas-Keeps : (gas : ℕ) → Keeps env (charge_gas env gas)
  unfolding charge_gas
  charge_gas-Keeps gas = search (keeps_rules, bank.get-consume_gas)

  pub charge_for_create_denom-Keeps : (c : Bytes) → Keeps env (charge_for_create_denom env c)
  unfolding charge_for_create_denom
  charge_for_create_denom-Keeps c = search (keeps_rules, charge_fee-Keeps, charge_gas-Keeps)

  pub emit-Keeps : (e : Event) → Keeps env (modify (emit env e))
  emit-Keeps e = record { at = λ s. Step-chain env s _ refl (λ d k. k) }

  -- The bank knows a denom still behind SetDenomMetaData, for this denom or another.
  pub set_denom_metadata_known :
      (x : env.Metadata) (c : env.Chain) (d : Bytes) {m : env.Metadata}
      → env.get_denom_metadata c d ≡ some m
      → (m' : env.Metadata) × (env.get_denom_metadata (env.set_denom_metadata x c) d ≡ some m')
  set_denom_metadata_known x c d {m} h = elim (same-cases (env.base x) d) [
    | inl (_, e) ↦ (x, bank.get-set x d c ∙ rw e)
    | inr (_, e) ↦ (m, bank.get-set x d c ∙ rw e h)
  ]

  set_denom_metadata-Keeps :
      (x : env.Metadata)
      → Keeps env (modify (λ s. record s { chain = env.set_denom_metadata x s.chain }))
  set_denom_metadata-Keeps x = record {
    at = λ s. Step-chain env s _ refl (λ d k. set_denom_metadata_known x s.chain d k.1);
  }

  pub handle_mint-Keeps : (m : MsgMint) → Keeps env (handle_mint env m)
  unfolding handle_mint
  handle_mint-Keeps m = search (keeps_rules, check_admin-Keeps, mint_to-Keeps, emit-Keeps) depth 12

  pub handle_burn-Keeps : (m : MsgBurn) → Keeps env (handle_burn env m)
  unfolding handle_burn
  handle_burn-Keeps m =
      search (keeps_rules, check_admin-Keeps, burn_from-Keeps, emit-Keeps) depth 12

  pub handle_force_transfer-Keeps : (m : MsgForceTransfer) → Keeps env (handle_force_transfer env m)
  unfolding handle_force_transfer
  handle_force_transfer-Keeps m =
      search (keeps_rules, check_admin-Keeps, force_transfer_coins-Keeps, emit-Keeps) depth 12

  pub handle_set_denom_metadata-Keeps :
      (m : MsgSetDenomMetadata env) → Keeps env (handle_set_denom_metadata env m)
  unfolding handle_set_denom_metadata
  handle_set_denom_metadata-Keeps m =
      search (keeps_rules, check_admin-Keeps, set_denom_metadata-Keeps, emit-Keeps) depth 12
