-- ===== src/Keeper/MsgServer/Atomic.antt =====
-- A message that fails has written nothing of the module's own.
use tokenfactory.Base.{ℕ, sym, subst, arith, none, some}
use tokenfactory.Base.Outcome.{IsErr}
use tokenfactory.Base.Bytes.{Bytes}
use tokenfactory.Env.{Env, Coin, Coins}
use tokenfactory.Types.Messages.{
  Msg, MsgCreateDenom, MsgMint, MsgBurn, MsgForceTransfer, MsgChangeAdmin, MsgSetDenomMetadata,
}
use tokenfactory.Types.Authority.{DenomAuthorityMetadata}
use tokenfactory.Keeper.Exec.{modify}
use tokenfactory.Keeper.Exec.Laws.{Fails, DoesOnFailure}
use tokenfactory.Keeper.State.{State}
use tokenfactory.Keeper.State.Own.{
  SameOwn, Foreign, IsAtomic, IsAtomic-bind, IsAtomic-then, Foreign-pure, Foreign-lift,
  foreign_rules, atomic_rules,
}
use tokenfactory.Keeper.Admins.{set_authority_metadata, set_admin}
use tokenfactory.Keeper.BankActions.{mint_to, burn_from, force_transfer_coins}
use tokenfactory.Keeper.CreateDenom.{
  validate_create_denom, charge_fee, charge_gas, charge_for_create_denom, register_metadata,
  create_denom_after_validation, create_denom,
}
use tokenfactory.Keeper.MsgServer.{
  check_admin, handle_create_denom, handle_mint, handle_burn, handle_force_transfer,
  handle_change_admin, handle_set_denom_metadata, handle,
}
use tokenfactory.Keeper.Creators.{add_denom_from_creator}

module _ (env : Env) where
  pub mint_to-Foreign : (c : Coin) (to : Bytes) → Foreign env (mint_to env c to)
  unfolding mint_to
  mint_to-Foreign c to = search foreign_rules depth 12

  pub burn_from-Foreign : (c : Coin) (from : Bytes) → Foreign env (burn_from env c from)
  unfolding burn_from
  burn_from-Foreign c from = search foreign_rules depth 12

  pub force_transfer_coins-Foreign :
      (c : Coin) (from to : Bytes) → Foreign env (force_transfer_coins env c from to)
  unfolding force_transfer_coins
  force_transfer_coins-Foreign c from to = search foreign_rules depth 12

  pub check_admin-Foreign : (d x : Bytes) → Foreign env (check_admin env d x)
  unfolding check_admin
  check_admin-Foreign d x = search foreign_rules

  validate_create_denom-Foreign : (c s : Bytes) → Foreign env (validate_create_denom env c s)
  unfolding validate_create_denom
  validate_create_denom-Foreign c s = search foreign_rules depth 12

  charge_fee-Foreign : (fee : Coins) (c : Bytes) → Foreign env (charge_fee env fee c)
  unfolding charge_fee
  charge_fee-Foreign none c = Foreign-pure env tt
  charge_fee-Foreign (some fee) c = search foreign_rules

  charge_gas-Foreign : (gas : ℕ) → Foreign env (charge_gas env gas)
  unfolding charge_gas
  charge_gas-Foreign gas = search foreign_rules

  pub charge_for_create_denom-Foreign : (c : Bytes) → Foreign env (charge_for_create_denom env c)
  unfolding charge_for_create_denom
  charge_for_create_denom-Foreign c = search (foreign_rules, charge_fee-Foreign, charge_gas-Foreign)

  pub register_metadata-Foreign : (d : Bytes) → Foreign env (modify (register_metadata env d))
  unfolding register_metadata
  register_metadata-Foreign d = record { at = λ s. ground arith }

  set_authority_metadata-IsAtomic :
      (d : Bytes) (m : DenomAuthorityMetadata) → IsAtomic env (set_authority_metadata env d m)
  unfolding set_authority_metadata
  set_authority_metadata-IsAtomic d m = search (foreign_rules, atomic_rules)

  set_admin-IsAtomic : (d a : Bytes) → IsAtomic env (set_admin env d a)
  unfolding set_admin
  set_admin-IsAtomic d a = search (foreign_rules, atomic_rules, set_authority_metadata-IsAtomic)

  create_denom_after_validation-IsAtomic :
      (c d : Bytes) → IsAtomic env (create_denom_after_validation env c d)
  unfolding create_denom_after_validation add_denom_from_creator
  create_denom_after_validation-IsAtomic c d =
      search
        (foreign_rules, atomic_rules, register_metadata-Foreign, set_authority_metadata-IsAtomic)

  create_denom-IsAtomic : (c s : Bytes) → IsAtomic env (create_denom env c s)
  unfolding create_denom
  create_denom-IsAtomic c s = IsAtomic-bind env _ _ (validate_create_denom-Foreign c s) λ d.
      IsAtomic-bind env _ _ (charge_for_create_denom-Foreign c)
        λ _. IsAtomic-then env _ _ (create_denom_after_validation-IsAtomic c d) (λ _ _ h. h)

  handle_create_denom-IsAtomic : (m : MsgCreateDenom) → IsAtomic env (handle_create_denom env m)
  unfolding handle_create_denom
  handle_create_denom-IsAtomic m =
      IsAtomic-then env _ _ (create_denom-IsAtomic m.sender m.subdenom) (λ _ _ h. h)

  handle_mint-IsAtomic : (m : MsgMint) → IsAtomic env (handle_mint env m)
  unfolding handle_mint
  handle_mint-IsAtomic m =
      search (foreign_rules, atomic_rules, mint_to-Foreign, check_admin-Foreign) depth 12

  handle_burn-IsAtomic : (m : MsgBurn) → IsAtomic env (handle_burn env m)
  unfolding handle_burn
  handle_burn-IsAtomic m =
      search (foreign_rules, atomic_rules, burn_from-Foreign, check_admin-Foreign) depth 12

  handle_force_transfer-IsAtomic :
      (m : MsgForceTransfer) → IsAtomic env (handle_force_transfer env m)
  unfolding handle_force_transfer
  handle_force_transfer-IsAtomic m =
      search (foreign_rules, atomic_rules, force_transfer_coins-Foreign, check_admin-Foreign) depth
        12

  handle_change_admin-IsAtomic : (m : MsgChangeAdmin) → IsAtomic env (handle_change_admin env m)
  unfolding handle_change_admin
  handle_change_admin-IsAtomic m =
      IsAtomic-bind env _ _ (check_admin-Foreign m.denom m.sender)
        (λ _. IsAtomic-then env _ _ (set_admin-IsAtomic m.denom m.new_admin) (λ _ _ h. h))

  handle_set_denom_metadata-IsAtomic :
      (m : MsgSetDenomMetadata env) → IsAtomic env (handle_set_denom_metadata env m)
  unfolding handle_set_denom_metadata
  handle_set_denom_metadata-IsAtomic m = IsAtomic-bind env _ _ (Foreign-lift env _) λ _.
      IsAtomic-bind env _ _ (check_admin-Foreign (env.base m.metadata) m.sender)
        λ _. record { at = λ s h. absurd h }

  -- A failure behind which no write of the module's own stands. A panic of the store itself, which may
  -- come between two writes, is none of the failures that there are here.
  handle-SameOwn_of_failure :
      (m : Msg env) (s : State env) → Fails (handle env m s).0 → SameOwn env s (handle env m s).1
  unfolding handle
  handle-SameOwn_of_failure (Msg.create_denom m) s h =
      DoesOnFailure.at (IsAtomic-then env _ _ (handle_create_denom-IsAtomic m) (λ _ _ k. k)) s h
  handle-SameOwn_of_failure (Msg.mint m) s h =
      DoesOnFailure.at (IsAtomic-then env _ _ (handle_mint-IsAtomic m) (λ _ _ k. k)) s h
  handle-SameOwn_of_failure (Msg.burn m) s h =
      DoesOnFailure.at (IsAtomic-then env _ _ (handle_burn-IsAtomic m) (λ _ _ k. k)) s h
  handle-SameOwn_of_failure (Msg.force_transfer m) s h =
      DoesOnFailure.at (IsAtomic-then env _ _ (handle_force_transfer-IsAtomic m) (λ _ _ k. k)) s h
  handle-SameOwn_of_failure (Msg.change_admin m) s h =
      DoesOnFailure.at (IsAtomic-then env _ _ (handle_change_admin-IsAtomic m) (λ _ _ k. k)) s h
  handle-SameOwn_of_failure (Msg.set_denom_metadata m) s h =
      DoesOnFailure.at (IsAtomic-then env _ _ (handle_set_denom_metadata-IsAtomic m) (λ _ _ k. k)) s
        h

  -- A message that returns an error has written nothing to the module's store, and none of the events
  -- that the module itself emits. What other keepers have done before the error is not undone, and
  -- nothing is said of panics.
  pub handle-SameOwn_of_error :
      (m : Msg env) (s : State env) → IsErr (handle env m s).0 → SameOwn env s (handle env m s).1
  handle-SameOwn_of_error m s (e, h) =
      handle-SameOwn_of_failure m s (subst (λ r. Fails r) (sym h) tt)
