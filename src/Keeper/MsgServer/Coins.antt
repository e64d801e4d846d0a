-- ===== src/Keeper/MsgServer/Coins.antt =====
-- What Mint, Burn and ForceTransfer do to the bank's ledger when they go through.
use tokenfactory.Base.{ℕ, ◌≡◌, refl, sym, ap, subst, ◌∙◌, none, some, false, not, Option}
use tokenfactory.Base.Bytes.{Bytes}
use tokenfactory.Base.Outcome
use tokenfactory.Base.Outcome.{
  ok, fail_if-eq-ok, denom_does_not_exist, unauthorized, burn_from_module_account,
}
use tokenfactory.Env.{Env, pos}
use tokenfactory.Env.Ledger.{Ledger, LedgerLaws}
use tokenfactory.Types.Messages.{MsgMint, MsgBurn, MsgForceTransfer}
use tokenfactory.Keeper.Exec.Laws.{>>=-eq-ok}
use tokenfactory.Keeper.State.{State, Known}
use tokenfactory.Keeper.BankActions.{mint_to, burn_from, force_transfer_coins}
use tokenfactory.Keeper.BankActions.Laws.{
  Minted, Burnt, Moved, mint_to-Minted, burn_from-Burnt, force_transfer_coins-Moved, lift-then,
}
use tokenfactory.Keeper.CreateDenom.{is_some}
use tokenfactory.Keeper.MsgServer.{
  check_admin, default_to, holds_module_account, handle_mint, handle_burn, handle_force_transfer,
}
use tokenfactory.Keeper.MsgServer.Authority.{IsAdmin, check_admin_passed}

is_some-cases : {A : Type 0} (o : Option A) → not (is_some o) ≡ false → (a : A) × (o ≡ some a)
is_some-cases none h = cc
is_some-cases (some a) h = (a, refl)

module _ (env : Env) (ledger : Ledger env) (laws : LedgerLaws env ledger) where
  -- A Mint that goes through is of a denom that the bank knows, and was sent by its admin. An amount of
  -- that denom alone, which is not negative, has been added to the supply, and to what the recipient
  -- holds: the address in the message, or the sender where that is empty. No other account holds more
  -- or less of anything, and the module's store is as it was.
  pub handle_mint-effect :
      (m : MsgMint) (s t : State env)
      → handle_mint env m s ≡ (ok tt, t)
      → Known env s m.amount.denom
        × IsAdmin env s m.amount.denom m.sender
        × (a : Bytes) × (n : ℕ) × (env.address_from_bech32 (default_to m.sender m.mint_to_address)
            ≡ ok a)
        × (m.amount.amount ≡ pos n)
        × (t.store ≡ s.store)
        × Minted env ledger m.amount.denom n a s.chain t.chain
  unfolding handle_mint
  handle_mint-effect m s t h =
      let (_, there, k1) =
        lift-then
          (Outcome.fail_if (not (is_some (env.get_denom_metadata s.chain m.amount.denom)))
            denom_does_not_exist)
          _ s h in
      let (_, s1, h2, k2) = >>=-eq-ok (check_admin env m.amount.denom m.sender) _ s k1 in
      let (same, admin) = check_admin_passed env m.amount.denom m.sender s s1 h2 in
      let to = default_to m.sender m.mint_to_address in
      let (_, s2, h3, k3) = >>=-eq-ok (mint_to env m.amount to) _ s1 k2 in
      let (a, n, decodes, e, stored, minted) =
        mint_to-Minted env ledger laws m.amount to s s2
          (ap (mint_to env m.amount to) (sym same) ∙ h3) in
      (
        is_some-cases _ (fail_if-eq-ok _ denom_does_not_exist there),
        admin,
        a,
        n,
        decodes,
        e,
        sym (ap (λ r. r.1.store) k3) ∙ stored,
        subst (λ q. Minted env ledger m.amount.denom n a s.chain q) (ap (λ r. r.1.chain) k3) minted,
      )

  -- A Burn that goes through was sent by the admin of the denom. An amount of that denom alone, which
  -- is not negative, is gone from the supply, and from what the account held: the address in the
  -- message, or the sender where that is empty. No other account holds more or less of anything, and
  -- the module's store is as it was.
  pub handle_burn-effect :
      (m : MsgBurn) (s t : State env)
      → handle_burn env m s ≡ (ok tt, t)
      → IsAdmin env s m.amount.denom m.sender
        × (a : Bytes) × (n : ℕ) × (env.address_from_bech32 (default_to m.sender m.burn_from_address)
            ≡ ok a)
        × (m.amount.amount ≡ pos n)
        × (t.store ≡ s.store)
        × Burnt env ledger m.amount.denom n a s.chain t.chain
  unfolding handle_burn
  handle_burn-effect m s t h =
      let from = default_to m.sender m.burn_from_address in
      let (_, s1, h1, k1) = >>=-eq-ok (check_admin env m.amount.denom m.sender) _ s h in
      let (same, admin) = check_admin_passed env m.amount.denom m.sender s s1 h1 in
      let (_, _, k2) =
        lift-then
          (Outcome.fail_if (holds_module_account env (env.get_account s1.chain from))
            burn_from_module_account)
          _ s1 k1 in
      let (_, s2, h3, k3) = >>=-eq-ok (burn_from env m.amount from) _ s1 k2 in
      let (a, n, decodes, e, stored, burnt) =
        burn_from-Burnt env ledger laws m.amount from s s2
          (ap (burn_from env m.amount from) (sym same) ∙ h3) in
      (
        admin,
        a,
        n,
        decodes,
        e,
        sym (ap (λ r. r.1.store) k3) ∙ stored,
        subst (λ q. Burnt env ledger m.amount.denom n a s.chain q) (ap (λ r. r.1.chain) k3) burnt,
      )

  -- A ForceTransfer that goes through was sent by the admin of the denom. An amount of that denom
  -- alone, which is not negative, has passed from the one address of the message to the other. The
  -- supply of no denom has changed, no other account holds more or less of anything, and the module's
  -- store is as it was.
  pub handle_force_transfer-effect :
      (m : MsgForceTransfer) (s t : State env)
      → handle_force_transfer env m s ≡ (ok tt, t)
      → IsAdmin env s m.amount.denom m.sender
        × (a b : Bytes) × (n : ℕ) × (env.address_from_bech32 m.transfer_from_address ≡ ok a)
        × (env.address_from_bech32 m.transfer_to_address ≡ ok b)
        × (m.amount.amount ≡ pos n)
        × (t.store ≡ s.store)
        × Moved env ledger m.amount.denom n a b s.chain t.chain
  unfolding handle_force_transfer
  handle_force_transfer-effect m s t h =
      let (_, s1, h1, k1) = >>=-eq-ok (check_admin env m.amount.denom m.sender) _ s h in
      let (same, admin) = check_admin_passed env m.amount.denom m.sender s s1 h1 in
      let transfer =
        force_transfer_coins env m.amount m.transfer_from_address m.transfer_to_address in
      let (_, s2, h3, k3) = >>=-eq-ok transfer _ s1 k1 in
      let (a, b, n, decodes, decodes', e, stored, moved) =
        force_transfer_coins-Moved env ledger laws m.amount m.transfer_from_address
          m.transfer_to_address s s2 (ap transfer (sym same) ∙ h3) in
      (
        admin,
        a,
        b,
        n,
        decodes,
        decodes',
        e,
        sym (ap (λ r. r.1.store) k3) ∙ stored,
        subst (λ q. Moved env ledger m.amount.denom n a b s.chain q) (ap (λ r. r.1.chain) k3) moved,
      )
