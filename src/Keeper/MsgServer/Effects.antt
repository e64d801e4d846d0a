-- ===== src/Keeper/MsgServer/Effects.antt =====
-- What CreateDenom and ChangeAdmin leave behind when they go through.
use tokenfactory.Base.{◌≡◌, refl, sym, ap, subst, ◌∙◌}
use tokenfactory.Base.Bytes.{Bytes}
use tokenfactory.Base.Outcome
use tokenfactory.Base.Outcome.{Outcome, ok, err, panic}
use tokenfactory.Env.{Env}
use tokenfactory.Types.Authority.{authority_validate}
use tokenfactory.Types.Messages.{MsgCreateDenom, MsgChangeAdmin}
use tokenfactory.Keeper.Exec.{after}
use tokenfactory.Keeper.Exec.Laws.{>>=-eq-ok}
use tokenfactory.Keeper.State.{State}
use tokenfactory.Keeper.State.Own.{SameOwn}
use tokenfactory.Keeper.Admins.{set_admin}
use tokenfactory.Keeper.Admins.Laws.{written, set_authority_metadata_ok}
use tokenfactory.Keeper.CreateDenom.{
  validate_create_denom, charge_for_create_denom, create_denom_after_validation, create_denom,
  register_metadata,
}
use tokenfactory.Keeper.CreateDenom.Laws.{
  IsNew, listed, validate_create_denom_ok, create_denom_after_validation_lem,
}
use tokenfactory.Keeper.MsgServer.{check_admin, handle_create_denom, handle_change_admin}
use tokenfactory.Keeper.MsgServer.Atomic.{charge_for_create_denom-Foreign}
use tokenfactory.Keeper.MsgServer.Authority.{
  IsAdmin, check_admin_passed, set_admin-set_authority_metadata,
}

module _ (env : Env) where
  create_denom_after_validation_ok :
      (c d : Bytes) (s t : State env) {u : Unit {0}}
      → create_denom_after_validation env c d s ≡ (ok u, t)
      → (authority_validate env (record { admin = c }) ≡ ok tt)
        × (t ≡ listed env c d (written env d (record { admin = c }) (register_metadata env d s)))
  create_denom_after_validation_ok c d s t h =
      go (authority_validate env (record { admin = c })) refl
        (sym (create_denom_after_validation_lem env c d s) ∙ h)
    where
      go :
          (v : Outcome (Unit {0})) {u : Unit {0}}
          → authority_validate env (record { admin = c }) ≡ v
          → after {A = Unit {0}} {B = Unit {0}}
              (λ _ x. (ok tt, listed env c d (written env d (record { admin = c }) x)))
              (v, register_metadata env d s)
            ≡ (ok u, t)
          → (authority_validate env (record { admin = c }) ≡ ok tt)
            × (t
                ≡ listed env c d (written env d (record { admin = c }) (register_metadata env d s)))
      go (ok _) e k = (e, sym (ap (λ r. r.1) k))
      go (err x) e k = cc
      go (panic x) e k = cc

  -- How a CreateDenom that went through got from `s` to `t`, with `mid` behind the charge.
  pub record Created (c sub d : Bytes) (s t : State env) : Type 0 where
    pub mid : State env
    pub charged : SameOwn env s mid
    pub charge : mid ≡ (charge_for_create_denom env c s).1
    pub new : IsNew env c sub d s
    pub valid : authority_validate env (record { admin = c }) ≡ ok tt
    pub result :
        t ≡ listed env c d (written env d (record { admin = c }) (register_metadata env d mid))

  create_denom_ok :
      (c sub d : Bytes) (s t : State env)
      → create_denom env c sub s ≡ (ok d, t)
      → Created c sub d s t
  unfolding create_denom
  create_denom_ok c sub d s t h =
      let (d', s1, h1, k1) = >>=-eq-ok (validate_create_denom env c sub) _ s h in
      let (_, s2, h2, k2) = >>=-eq-ok (charge_for_create_denom env c) _ s1 k1 in
      let (_, s3, h3, k3) = >>=-eq-ok (create_denom_after_validation env c d') _ s2 k2 in
      let e : d' ≡ d = Outcome.ok-injective (ap (λ r. r.0) k3) in
      let (same, new) = validate_create_denom_ok env c sub d' s s1 h1 in
      let (valid, result) = create_denom_after_validation_ok c d' s2 s3 h3 in
      record {
        mid = s2;
        charged =
            subst (λ (r : Outcome (Unit {0}) × State env). SameOwn env s r.1) h2
              (subst (λ q. SameOwn env q (charge_for_create_denom env c s1).1) same
                ((charge_for_create_denom-Foreign env c).at s1));
        charge = sym (ap (λ r. r.1) h2) ∙ ap (λ q. (charge_for_create_denom env c q).1) same;
        new = subst (λ q. IsNew env c sub q s) e new;
        valid = valid;
        result =
            sym (ap (λ r. r.1) k3)
            ∙ result
            ∙ ap
                (λ q.
                  listed env c q
                    (written env q (record { admin = c }) (register_metadata env q s2)))
                e;
      }

  pub handle_create_denom_ok :
      (m : MsgCreateDenom) (d : Bytes) (s t : State env)
      → handle_create_denom env m s ≡ (ok d, t)
      → (u : State env) × Created m.sender m.subdenom d s u
        × (t.store ≡ u.store)
        × (t.chain ≡ u.chain)
  unfolding handle_create_denom
  handle_create_denom_ok m d s t h =
      let (d', u, h1, k1) = >>=-eq-ok (create_denom env m.sender m.subdenom) _ s h in
      let e : d' ≡ d = Outcome.ok-injective (ap (λ r. r.0) k1) in
      (
        u,
        create_denom_ok m.sender m.subdenom d s u (h1 ∙ ap (λ q. (ok q, u)) e),
        sym (ap (λ r. r.1.store) k1),
        sym (ap (λ r. r.1.chain) k1),
      )

  -- ChangeAdmin writes the new admin and an event, and nothing else.
  pub handle_change_admin_ok :
      (m : MsgChangeAdmin) (s t : State env) {u : Unit {0}}
      → handle_change_admin env m s ≡ (ok u, t)
      → IsAdmin env s m.denom m.sender
        × (authority_validate env (record { admin = m.new_admin }) ≡ ok tt)
        × (t.store ≡ (written env m.denom (record { admin = m.new_admin }) s).store)
        × (t.chain ≡ s.chain)
  unfolding handle_change_admin
  handle_change_admin_ok m s t h =
      let (_, s1, h1, k1) = >>=-eq-ok (check_admin env m.denom m.sender) _ s h in
      let (_, s2, h2, k2) = >>=-eq-ok (set_admin env m.denom m.new_admin) _ s1 k1 in
      let (same, admin) = check_admin_passed env m.denom m.sender s s1 h1 in
      let (valid, result) =
        set_authority_metadata_ok env m.denom (record { admin = m.new_admin }) s s2
          (sym (set_admin-set_authority_metadata env s m.denom m.sender m.new_admin admin)
            ∙ ap (set_admin env m.denom m.new_admin) (sym same)
            ∙ h2) in
      (
        admin,
        valid,
        sym (ap (λ r. r.1.store) k2) ∙ ap (λ (q : State env). q.store) result,
        sym (ap (λ r. r.1.chain) k2) ∙ ap (λ (q : State env). q.chain) result,
      )
