-- ===== src/Keeper/MsgServer/SameStore.antt =====
-- The handlers that never write the module's store.
use tokenfactory.Base.{◌≡◌, refl, ◌∙◌}
use tokenfactory.Env.{Env}
use tokenfactory.Types.Messages.{MsgMint, MsgBurn, MsgForceTransfer, MsgSetDenomMetadata}
use tokenfactory.Types.Events.{Event}
use tokenfactory.Keeper.Exec.{modify, ◌>>=◌}
use tokenfactory.Keeper.Exec.Laws.{Does, Does-bind}
use tokenfactory.Keeper.State.{State, Action, emit}
use tokenfactory.Keeper.State.Own.{Foreign, foreign_rules}
use tokenfactory.Keeper.MsgServer.{
  handle_mint, handle_burn, handle_force_transfer, handle_set_denom_metadata,
}
use tokenfactory.Keeper.MsgServer.Atomic.{
  mint_to-Foreign, burn_from-Foreign, force_transfer_coins-Foreign, check_admin-Foreign,
}

module _ (env : Env) where
  pub record SameStore (s t : State env) : Type 0 where
    pub store : t.store ≡ s.store

  SameStore-trans : (s t u : State env) → SameStore s t → SameStore t u → SameStore s u
  SameStore-trans s t u h k = record { store = k.store ∙ h.store }

  abbrev pub KeepsStore : {A : Type 0} → Action env A → Type 0
  KeepsStore m = Does SameStore m

  KeepsStore-Foreign : {A : Type 0} (m : Action env A) → Foreign env m → KeepsStore m
  KeepsStore-Foreign m h = record { at = λ s. record { store = (h.at s).store } }

  KeepsStore-bind :
      {A B : Type 0} (m : Action env A) (f : A → Action env B)
      → KeepsStore m
      → ((a : A) → KeepsStore (f a))
      → KeepsStore (m >>= f)
  KeepsStore-bind m f = Does-bind SameStore-trans m f

  KeepsStore-emit : (e : Event) → KeepsStore (modify (emit env e))
  KeepsStore-emit e = record { at = λ s. record { store = refl } }

  -- A call, and the event that ends the handler.
  KeepsStore-then_emit :
      {A : Type 0} (m : Action env A) (e : A → Event)
      → Foreign env m
      → KeepsStore (m >>= λ a. modify (emit env (e a)))
  KeepsStore-then_emit m e h =
      KeepsStore-bind m _ (KeepsStore-Foreign m h) (λ a. KeepsStore-emit (e a))

  ruleset keeps_store_rules = (KeepsStore-then_emit, KeepsStore-bind, KeepsStore-Foreign)

  pub handle_mint-KeepsStore : (m : MsgMint) → KeepsStore (handle_mint env m)
  unfolding handle_mint
  handle_mint-KeepsStore m =
      search (foreign_rules, keeps_store_rules, mint_to-Foreign, check_admin-Foreign) depth 12

  pub handle_burn-KeepsStore : (m : MsgBurn) → KeepsStore (handle_burn env m)
  unfolding handle_burn
  handle_burn-KeepsStore m =
      search (foreign_rules, keeps_store_rules, burn_from-Foreign, check_admin-Foreign) depth 12

  pub handle_force_transfer-KeepsStore :
      (m : MsgForceTransfer) → KeepsStore (handle_force_transfer env m)
  unfolding handle_force_transfer
  handle_force_transfer-KeepsStore m =
      search (foreign_rules, keeps_store_rules, force_transfer_coins-Foreign, check_admin-Foreign)
        depth 12

  pub handle_set_denom_metadata-KeepsStore :
      (m : MsgSetDenomMetadata env) → KeepsStore (handle_set_denom_metadata env m)
  unfolding handle_set_denom_metadata
  handle_set_denom_metadata-KeepsStore m =
      KeepsStore-bind _ _ (record { at = λ s. record { store = refl } })
        λ _.
          KeepsStore-bind _ _
            (KeepsStore-Foreign _ (check_admin-Foreign env (env.base m.metadata) m.sender))
            (λ _. record { at = λ s. record { store = refl } })
