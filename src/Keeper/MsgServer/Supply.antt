-- ===== src/Keeper/MsgServer/Supply.antt =====
-- The supply of coins behind a message that went through.
use tokenfactory.Base.{
  ℕ, ◌+◌, ◌≡◌, refl, ap, none, some, true, false, Bool, Option, [], ◌∷◌, if◌then◌else◌, ◌==◌, arith,
}
use tokenfactory.Base.Bytes.{Bytes}
use tokenfactory.Base.Outcome.{ok}
use tokenfactory.Env.{Env, Coins, ℤ, unset, pos, negsuc}
use tokenfactory.Env.Ledger.{Ledger, LedgerLaws, of_denom}
use tokenfactory.Types.Events.{Event}
use tokenfactory.Types.Authority.{DenomAuthorityMetadata}
use tokenfactory.Types.Messages.{Msg, MsgCreateDenom, MsgChangeAdmin, MsgSetDenomMetadata}
use tokenfactory.Keeper.Exec.{modify}
use tokenfactory.Keeper.Exec.Laws.{>>=-eq-ok}
use tokenfactory.Keeper.State.{State, emit}
use tokenfactory.Keeper.State.Supply.{
  KeepsSupply, KeepsSupply-lift, KeepsSupply-pure, KeepsSupply-if, KeepsSupply-call,
  KeepsSupply-modify, KeepsSupply-bind, supply_rules,
}
use tokenfactory.Keeper.Admins.{set_authority_metadata, set_admin}
use tokenfactory.Keeper.Creators.{add_denom_from_creator}
use tokenfactory.Keeper.CreateDenom.{
  validate_create_denom, charge_fee, charge_gas, charge_for_create_denom, register_metadata,
  create_denom_after_validation, create_denom, is_some,
}
use tokenfactory.Keeper.MsgServer.{
  check_admin, handle_create_denom, handle_change_admin, handle_set_denom_metadata, handle_mint,
  handle_burn, handle_force_transfer, handle,
}
use tokenfactory.Keeper.MsgServer.Coins.{
  handle_mint-effect, handle_burn-effect, handle_force_transfer-effect,
}

module _ (env : Env) (ledger : Ledger env) (laws : LedgerLaws env ledger) where
  open ledger use {supply}

  charge_fee-KeepsSupply : (fee : Coins) (c : Bytes) → KeepsSupply env ledger (charge_fee env fee c)
  unfolding charge_fee
  charge_fee-KeepsSupply none c = search supply_rules
  charge_fee-KeepsSupply (some fee) c =
      KeepsSupply-bind env ledger _ _ (KeepsSupply-lift env ledger _) (λ a.
        KeepsSupply-call env ledger _ (λ x d e. laws.supply-fund_community_pool (some fee) a x d e))

  charge_gas-KeepsSupply : (gas : ℕ) → KeepsSupply env ledger (charge_gas env gas)
  unfolding charge_gas
  charge_gas-KeepsSupply gas =
      KeepsSupply-if env ledger (gas == 0) _ _ (KeepsSupply-pure env ledger tt)
        (KeepsSupply-call env ledger _ (λ x d e. laws.supply-consume_gas gas x d e))

  register_metadata-supply :
      (denom : Bytes) (s : State env) (d : Bytes)
      → supply (register_metadata env denom s).chain d ≡ supply s.chain d
  unfolding register_metadata
  register_metadata-supply denom s d = go (is_some (env.get_denom_metadata s.chain denom))
    where
      go :
          (b : Bool)
          → supply
              (if b then s else record s {
                chain = env.set_denom_metadata (env.new_metadata ((denom, 0) ∷ []) denom) s.chain;
              }).chain
              d
            ≡ supply s.chain d
      go true = refl
      go false = laws.supply-set_denom_metadata _ s.chain d

  set_authority_metadata-KeepsSupply :
      (denom : Bytes) (m : DenomAuthorityMetadata)
      → KeepsSupply env ledger (set_authority_metadata env denom m)
  unfolding set_authority_metadata
  set_authority_metadata-KeepsSupply denom m =
      KeepsSupply-bind env ledger _ _ (KeepsSupply-lift env ledger _)
        (λ a. KeepsSupply-modify env ledger _ (λ s d. refl))

  check_admin-KeepsSupply : (denom x : Bytes) → KeepsSupply env ledger (check_admin env denom x)
  unfolding check_admin
  check_admin-KeepsSupply denom x = search supply_rules

  validate_create_denom-KeepsSupply :
      (c sub : Bytes) → KeepsSupply env ledger (validate_create_denom env c sub)
  unfolding validate_create_denom
  validate_create_denom-KeepsSupply c sub = search supply_rules depth 12

  register_metadata-KeepsSupply :
      (denom : Bytes) → KeepsSupply env ledger (modify (register_metadata env denom))
  register_metadata-KeepsSupply denom =
      KeepsSupply-modify env ledger _ (register_metadata-supply denom)

  emit-KeepsSupply : (e : Event) → KeepsSupply env ledger (modify (emit env e))
  emit-KeepsSupply e = KeepsSupply-modify env ledger _ (λ s d. refl)

  add_denom-KeepsSupply : (c d : Bytes) → KeepsSupply env ledger (add_denom_from_creator env c d)
  unfolding add_denom_from_creator
  add_denom-KeepsSupply c d = KeepsSupply-modify env ledger _ (λ s d. refl)

  ruleset create_rules = (
    supply_rules, validate_create_denom-KeepsSupply, charge_fee-KeepsSupply, charge_gas-KeepsSupply,
    set_authority_metadata-KeepsSupply, register_metadata-KeepsSupply, emit-KeepsSupply,
    add_denom-KeepsSupply, check_admin-KeepsSupply,
  )

  charge_for_create_denom-KeepsSupply :
      (c : Bytes) → KeepsSupply env ledger (charge_for_create_denom env c)
  unfolding charge_for_create_denom
  charge_for_create_denom-KeepsSupply c = search create_rules depth 12

  create_denom_after_validation-KeepsSupply :
      (c d : Bytes) → KeepsSupply env ledger (create_denom_after_validation env c d)
  unfolding create_denom_after_validation
  create_denom_after_validation-KeepsSupply c d = search create_rules depth 12

  create_denom-KeepsSupply : (c sub : Bytes) → KeepsSupply env ledger (create_denom env c sub)
  unfolding create_denom
  create_denom-KeepsSupply c sub =
      search
        (
          create_rules, charge_for_create_denom-KeepsSupply,
          create_denom_after_validation-KeepsSupply,
        )
        depth 12

  handle_create_denom-KeepsSupply :
      (m : MsgCreateDenom) → KeepsSupply env ledger (handle_create_denom env m)
  unfolding handle_create_denom
  handle_create_denom-KeepsSupply m = search (create_rules, create_denom-KeepsSupply) depth 12

  set_admin-KeepsSupply : (d a : Bytes) → KeepsSupply env ledger (set_admin env d a)
  unfolding set_admin
  set_admin-KeepsSupply d a = search create_rules depth 12

  handle_change_admin-KeepsSupply :
      (m : MsgChangeAdmin) → KeepsSupply env ledger (handle_change_admin env m)
  unfolding handle_change_admin
  handle_change_admin-KeepsSupply m = search (create_rules, set_admin-KeepsSupply) depth 12

  set_metadata-KeepsSupply :
      (m : env.Metadata)
      → KeepsSupply env ledger (modify (λ s. record s { chain = env.set_denom_metadata m s.chain }))
  set_metadata-KeepsSupply m =
      KeepsSupply-modify env ledger _ (λ s d. laws.supply-set_denom_metadata m s.chain d)

  handle_set_denom_metadata-KeepsSupply :
      (m : MsgSetDenomMetadata env) → KeepsSupply env ledger (handle_set_denom_metadata env m)
  unfolding handle_set_denom_metadata
  handle_set_denom_metadata-KeepsSupply m = search (create_rules, set_metadata-KeepsSupply) depth 12

-- The number behind an amount that is not negative.
abbrev pub magnitude : ℤ → ℕ
magnitude (pos n) = n
magnitude unset = 0
magnitude (negsuc n) = 0

module _ (env : Env) where
  -- What a message is to add to the supply of a denom, and to take from it.
  abbrev pub minted : Msg env → Bytes → ℕ
  minted (Msg.mint m) d = of_denom m.amount.denom (magnitude m.amount.amount) d
  minted _ d = 0

  abbrev pub burnt : Msg env → Bytes → ℕ
  burnt (Msg.burn m) d = of_denom m.amount.denom (magnitude m.amount.amount) d
  burnt _ d = 0

module _ (env : Env) (ledger : Ledger env) (laws : LedgerLaws env ledger) where
  open ledger use {supply}

  -- Behind a message that goes through, the supply of every denom is what it was, but that a Mint has
  -- added its amount to that of its own denom, and a Burn has taken its amount from that of its own
  -- denom.
  pub handle-supply :
      (m : Msg env) (s t : State env) {r : Option Bytes}
      → handle env m s ≡ (ok r, t)
      → (d : Bytes) → supply t.chain d + burnt env m d ≡ supply s.chain d + minted env m d
  unfolding handle
  handle-supply (Msg.create_denom m) s t h d =
      let (x, s1, e, k) = >>=-eq-ok (handle_create_denom env m) _ s h in
      let same = (handle_create_denom-KeepsSupply env ledger laws m).at s e d in
      omega (arith, same, ap (λ q. supply q.1.chain d) k)
  handle-supply (Msg.mint m) s t h d =
      let (x, s1, e, k) = >>=-eq-ok (handle_mint env m) _ s h in
      let (_, _, a, n, _, e', _, made) = handle_mint-effect env ledger laws m s s1 e in
      let amount : of_denom m.amount.denom (magnitude m.amount.amount) d
          ≡ of_denom m.amount.denom n d =
        ap (λ q. of_denom m.amount.denom (magnitude q) d) e' in
      omega (arith, made.supplied d, amount, ap (λ q. supply q.1.chain d) k)
  handle-supply (Msg.burn m) s t h d =
      let (x, s1, e, k) = >>=-eq-ok (handle_burn env m) _ s h in
      let (_, a, n, _, e', _, gone) = handle_burn-effect env ledger laws m s s1 e in
      let amount : of_denom m.amount.denom (magnitude m.amount.amount) d
          ≡ of_denom m.amount.denom n d =
        ap (λ q. of_denom m.amount.denom (magnitude q) d) e' in
      omega (arith, gone.supplied d, amount, ap (λ q. supply q.1.chain d) k)
  handle-supply (Msg.force_transfer m) s t h d =
      let (x, s1, e, k) = >>=-eq-ok (handle_force_transfer env m) _ s h in
      let (_, a, b, n, _, _, _, _, moved) = handle_force_transfer-effect env ledger laws m s s1 e in
      omega (arith, moved.supplied d, ap (λ q. supply q.1.chain d) k)
  handle-supply (Msg.change_admin m) s t h d =
      let (x, s1, e, k) = >>=-eq-ok (handle_change_admin env m) _ s h in
      let same = (handle_change_admin-KeepsSupply env ledger laws m).at s e d in
      omega (arith, same, ap (λ q. supply q.1.chain d) k)
  handle-supply (Msg.set_denom_metadata m) s t h d =
      let (x, s1, e, k) = >>=-eq-ok (handle_set_denom_metadata env m) _ s h in
      let same = (handle_set_denom_metadata-KeepsSupply env ledger laws m).at s e d in
      omega (arith, same, ap (λ q. supply q.1.chain d) k)
