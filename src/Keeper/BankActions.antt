-- ===== src/Keeper/BankActions.antt =====
-- keeper/bankactions.go: minting, burning and moving coins of a factory denom.
pub mod Laws
use tokenfactory.Base.{[], ◌∷◌}
use tokenfactory.Base.Bytes.{Bytes}
use tokenfactory.Env.{Env, Coin}
use tokenfactory.Types.Keys.{module_name}
use tokenfactory.Types.Denoms.{deconstruct_denom}
use tokenfactory.Keeper.Exec.{lift, ◌>>=◌, ◌>>◌}
use tokenfactory.Keeper.State.{Action, call}

module _ (env : Env) where
  -- mintTo
  unfoldable pub mint_to : Coin → Bytes → Action env (Unit {0})
  mint_to amount to = do
    lift (deconstruct_denom env amount.denom)
    minted ← lift (env.new_coins (amount ∷ []))
    call env (env.mint_coins module_name minted)
    addr ← lift (env.address_from_bech32 to)
    sent ← lift (env.new_coins (amount ∷ []))
    call env (env.send_coins_from_module_to_account module_name addr sent)

  -- burnFrom
  unfoldable pub burn_from : Coin → Bytes → Action env (Unit {0})
  burn_from amount from = do
    lift (deconstruct_denom env amount.denom)
    addr ← lift (env.address_from_bech32 from)
    sent ← lift (env.new_coins (amount ∷ []))
    call env (env.send_coins_from_account_to_module addr module_name sent)
    burnt ← lift (env.new_coins (amount ∷ []))
    call env (env.burn_coins module_name burnt)

  -- forceTransfer
  unfoldable pub force_transfer_coins : Coin → Bytes → Bytes → Action env (Unit {0})
  force_transfer_coins amount from to = do
    lift (deconstruct_denom env amount.denom)
    from_addr ← lift (env.address_from_bech32 from)
    to_addr ← lift (env.address_from_bech32 to)
    sent ← lift (env.new_coins (amount ∷ []))
    call env (env.send_coins from_addr to_addr sent)
