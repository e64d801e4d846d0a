-- ===== src/Keeper/MsgServer/Progress.antt =====
-- Messages that go through.
use tokenfactory.Base.{◌≡◌, ap, ◌∙◌, [], none, some, false, inl, inr}
use tokenfactory.Base.Bytes.{Bytes, same_refl, same-cases}
use tokenfactory.Base.Outcome
use tokenfactory.Base.Outcome.{
  Outcome, ok, err, panic, >>=-eq-ok, wrap-eq-ok, invalid_address, invalid_denom,
}
use tokenfactory.Env.{Env, StoreLaws, AddressLaws}
use tokenfactory.Types.Denoms.{get_token_denom}
use tokenfactory.Types.Authority.{DenomAuthorityMetadata, authority_validate}
use tokenfactory.Types.Messages.{
  Msg, MsgCreateDenom, MsgChangeAdmin, validate_basic, check_address, create_denom_validate_basic,
  change_admin_validate_basic,
}
use tokenfactory.Types.Messages.Signers.{Decodes, check_address_ok}
use tokenfactory.Keeper.Exec.{after}
use tokenfactory.Keeper.Exec.Laws.{>>=-ok}
use tokenfactory.Keeper.State.{State}
use tokenfactory.Keeper.Admins.{set_authority_metadata, set_admin}
use tokenfactory.Keeper.Admins.Laws.{written, set_authority_metadata_lem}
use tokenfactory.Keeper.CreateDenom.{
  validate_create_denom, charge_for_create_denom, create_denom_after_validation, create_denom,
  register_metadata,
}
use tokenfactory.Keeper.CreateDenom.Laws.{listed, create_denom_after_validation_lem}
use tokenfactory.Keeper.MsgServer.{check_admin, handle_create_denom, handle_change_admin, handle}
use tokenfactory.Keeper.MsgServer.Authority.{IsAdmin, set_admin-set_authority_metadata}
use tokenfactory.Keeper.MsgServer.Outcomes.{handle_change_admin-effect}

module _ (env : Env) where
  Decodes-authority_validate :
      (x : Bytes) → Decodes env x → authority_validate env (record { admin = x }) ≡ ok tt
  unfolding authority_validate
  Decodes-authority_validate x (a, e) = elim (same-cases x []) [
    | inl (p, q) ↦ rw q
    | inr (n, q) ↦ rw (q, e)
  ]

  pub check_admin-IsAdmin :
      (d x : Bytes) (s : State env) → IsAdmin env s d x → check_admin env d x s ≡ (ok tt, s)
  unfolding check_admin
  check_admin-IsAdmin d x s h = rw (h, same_refl x)

  set_authority_metadata-valid :
      (d : Bytes) (m : DenomAuthorityMetadata) (s : State env)
      → authority_validate env m ≡ ok tt
      → set_authority_metadata env d m s ≡ (ok tt, written env d m s)
  set_authority_metadata-valid d m s v = set_authority_metadata_lem env d m s ∙ rw v

  change_admin_decodes :
      (m : MsgChangeAdmin) → change_admin_validate_basic env m ≡ ok tt → Decodes env m.new_admin
  unfolding change_admin_validate_basic
  change_admin_decodes m h =
      let (_, _, h1) = >>=-eq-ok (check_address env m.sender) _ h in
      let (_, e, _) = >>=-eq-ok (check_address env m.new_admin) _ h1 in
      check_address_ok env m.new_admin e

-- A ChangeAdmin that the admin sends goes through where the new admin is an address.
pub handle_change_admin_goes :
    {env : Env} (stores : StoreLaws env) (laws : AddressLaws env) (m : MsgChangeAdmin)
    (s : State env)
    → Decodes env m.new_admin
    → IsAdmin env s m.denom m.sender
    → (t : State env) × (handle env (Msg.change_admin m) s ≡ (ok none, t))
      × IsAdmin env t m.denom m.new_admin
unfolding handle handle_change_admin
handle_change_admin_goes {env} stores laws m s decodes admin =
    let valid = Decodes-authority_validate env m.new_admin decodes in
    let a : DenomAuthorityMetadata = record { admin = m.new_admin } in
    let wrote : set_admin env m.denom m.new_admin s ≡ (ok tt, written env m.denom a s) =
      set_admin-set_authority_metadata env s m.denom m.sender m.new_admin admin
      ∙ set_authority_metadata-valid env m.denom a s valid in
    let gone =
      >>=-ok (check_admin env m.denom m.sender) _ s
        (check_admin-IsAdmin env m.denom m.sender s admin)
      ∙ >>=-ok (set_admin env m.denom m.new_admin) _ s wrote in
    let (_, _, new, _, _, _) = handle_change_admin-effect env stores laws m s _ gone in
    (_, >>=-ok (handle_change_admin env m) _ s gone, new)

-- A valid ChangeAdmin that the admin sends goes through, and makes the new admin the admin.
pub handle_change_admin-progress :
    {env : Env} (stores : StoreLaws env) (laws : AddressLaws env) (m : MsgChangeAdmin)
    (s : State env)
    → validate_basic env (Msg.change_admin m) ≡ ok tt
    → IsAdmin env s m.denom m.sender
    → (t : State env) × (handle env (Msg.change_admin m) s ≡ (ok none, t))
      × IsAdmin env t m.denom m.new_admin
unfolding validate_basic
handle_change_admin-progress {env} stores laws m s v =
    handle_change_admin_goes stores laws m s (change_admin_decodes env m v)

module _ (env : Env) where
  create_denom_checked :
      (m : MsgCreateDenom)
      → create_denom_validate_basic env m ≡ ok tt
      → (d : Bytes) × (get_token_denom env m.sender m.subdenom ≡ ok d) × Decodes env m.sender
  unfolding create_denom_validate_basic
  create_denom_checked m h =
      let (_, e, h1) = >>=-eq-ok (check_address env m.sender) _ h in
      let (d, built, _) =
        >>=-eq-ok (Outcome.wrap invalid_denom (get_token_denom env m.sender m.subdenom)) _ h1 in
      (d, wrap-eq-ok invalid_denom _ built, check_address_ok env m.sender e)

  validate_create_denom-new :
      (c sub d : Bytes) (s : State env)
      → get_token_denom env c sub ≡ ok d
      → env.has_supply s.chain sub ≡ false
      → env.get_denom_metadata s.chain d ≡ none
      → validate_create_denom env c sub s ≡ (ok d, s)
  unfolding validate_create_denom
  validate_create_denom-new c sub d s built supply unknown = rw (supply, built, unknown)

-- A valid CreateDenom goes through and answers with a denom, where the bank has no supply of the
-- subdenom and does not know the denom that GetTokenDenom builds, and the charge goes through.
pub handle_create_denom-progress :
    {env : Env} (m : MsgCreateDenom) (s u : State env)
    → validate_basic env (Msg.create_denom m) ≡ ok tt
    → env.has_supply s.chain m.subdenom ≡ false
    → ((d : Bytes)
        → get_token_denom env m.sender m.subdenom ≡ ok d
        → env.get_denom_metadata s.chain d ≡ none)
    → charge_for_create_denom env m.sender s ≡ (ok tt, u)
    → (d : Bytes) × (t : State env) × (get_token_denom env m.sender m.subdenom ≡ ok d)
      × (handle env (Msg.create_denom m) s ≡ (ok (some d), t))
unfolding validate_basic handle handle_create_denom create_denom
handle_create_denom-progress {env} m s u v supply unknown charged =
    let (d, built, decodes) = create_denom_checked env m v in
    let made : create_denom env m.sender m.subdenom s ≡ (ok d, _) =
      >>=-ok (validate_create_denom env m.sender m.subdenom) _ s
        (validate_create_denom-new env m.sender m.subdenom d s built supply (unknown d built))
      ∙ >>=-ok (charge_for_create_denom env m.sender) _ s charged
      ∙ >>=-ok (create_denom_after_validation env m.sender d) _ u (
          create_denom_after_validation_lem env m.sender d u
          ∙ ap
              (λ x.
                after {A = Unit {0}} {B = Unit {0}}
                  (λ _ t.
                    (ok tt, listed env m.sender d (written env d (record { admin = m.sender }) t)))
                  (x, register_metadata env d u))
              (Decodes-authority_validate env m.sender decodes)) in
    (
      d,
      _,
      built,
      >>=-ok (handle_create_denom env m) _ s
          (>>=-ok (create_denom env m.sender m.subdenom) _ s made),
    )
