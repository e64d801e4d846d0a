-- ===== src/Keeper/Invariant/Owned.antt =====
-- A denom that has an admin never loses the last one.
use tokenfactory.Base.{◌≡◌, ◌≢◌, sym, ap, subst, ◌∙◌, [], Option, some, some-injective, inl, inr}
use tokenfactory.Base.Bytes.{Bytes, same-cases}
use tokenfactory.Base.Outcome.{ok}
use tokenfactory.Env.{Env, StoreLaws, AddressLaws, BankLaws, DenomLaws}
use tokenfactory.Types.Messages.{Msg, MsgChangeAdmin, validate_basic}
use tokenfactory.Types.Messages.Signers.{new_admin-Decodes, Decodes_nonempty}
use tokenfactory.Keeper.Exec.Laws.{>>=-eq-ok}
use tokenfactory.Keeper.State.{Known, State}
use tokenfactory.Keeper.MsgServer.{handle, handle_change_admin}
use tokenfactory.Keeper.MsgServer.Authority.{IsAdmin}
use tokenfactory.Keeper.MsgServer.Outcomes.{
  handle_change_admin-effect, same_store-get_authority_metadata,
}
use tokenfactory.Keeper.Invariant.Reach.{Happens, Reaches, Happens-Step}
use tokenfactory.Keeper.Invariant.Renounced.{reassigned, handle-get_authority_metadata}

-- The denom has an admin who can sign messages.
pub record IsOwned (env : Env) (s : State env) (d : Bytes) : Type 0 where
  pub admin : Bytes
  pub is_admin : IsAdmin env s d admin
  pub someone : admin ≢ []

module _ {env : Env} (stores : StoreLaws env) (laws : AddressLaws env) (bank : BankLaws env)
    (denoms : DenomLaws env) (d : Bytes) where
  change_admin-IsOwned :
      (m : MsgChangeAdmin) (s t : State env) {r : Option Bytes}
      → validate_basic env (Msg.change_admin m) ≡ ok tt
      → handle env (Msg.change_admin m) s ≡ (ok r, t)
      → m.denom ≡ d
      → IsOwned env t d
  unfolding handle
  change_admin-IsOwned m s t v e same =
      let (_, u, first, last) = >>=-eq-ok (handle_change_admin env m) _ s e in
      let (_, _, admin, _, _, _) = handle_change_admin-effect env stores laws m s u first in
      record {
        admin = m.new_admin;
        is_admin =
            subst (λ x. IsAdmin env t x m.new_admin) same
              (same_store-get_authority_metadata env stores laws m.denom u t
                  (sym (ap (λ x. x.1.store) last))
                ∙ admin);
        someone = Decodes_nonempty env laws m.new_admin (new_admin-Decodes env m v);
      }

  still-IsOwned :
      (msg : Msg env) (s t : State env) {r : Option Bytes}
      → handle env msg s ≡ (ok r, t)
      → Known env s d
      → reassigned env msg ≢ some d
      → IsOwned env s d
      → IsOwned env t d
  still-IsOwned msg s t e known n o = record {
    admin = o.admin;
    is_admin =
        handle-get_authority_metadata stores laws bank denoms msg d s t e known n ∙ o.is_admin;
    someone = o.someone;
  }

  delivered-IsOwned :
      (msg : Msg env) (s t : State env) {r : Option Bytes}
      → validate_basic env msg ≡ ok tt
      → handle env msg s ≡ (ok r, t)
      → Known env s d
      → IsOwned env s d
      → IsOwned env t d
  delivered-IsOwned (Msg.change_admin m) s t v e known o = elim (same-cases m.denom d) [
    | inl (p, _) ↦ change_admin-IsOwned m s t v e p
    | inr (n, _) ↦
        still-IsOwned (Msg.change_admin m) s t e known (λ h. n (some-injective m.denom d h)) o
  ]
  delivered-IsOwned (Msg.create_denom m) s t v e known o =
      still-IsOwned (Msg.create_denom m) s t e known (λ h. cc) o
  delivered-IsOwned (Msg.mint m) s t v e known o =
      still-IsOwned (Msg.mint m) s t e known (λ h. cc) o
  delivered-IsOwned (Msg.burn m) s t v e known o =
      still-IsOwned (Msg.burn m) s t e known (λ h. cc) o
  delivered-IsOwned (Msg.force_transfer m) s t v e known o =
      still-IsOwned (Msg.force_transfer m) s t e known (λ h. cc) o
  delivered-IsOwned (Msg.set_denom_metadata m) s t v e known o =
      still-IsOwned (Msg.set_denom_metadata m) s t e known (λ h. cc) o

  Happens-IsOwned :
      {s t : State env} → Happens env s t → Known env s d → IsOwned env s d → IsOwned env t d
  Happens-IsOwned {s} {t} (Happens.delivered msg v e) known o =
      delivered-IsOwned msg s t v e known o
  Happens-IsOwned {s} {t} (Happens.elsewhere same knows) known o = record {
    admin = o.admin;
    is_admin = same_store-get_authority_metadata env stores laws d s t same ∙ o.is_admin;
    someone = o.someone;
  }

  stays-IsOwned :
      {s t : State env}
      → Reaches env s t
      → Known env s d
      → IsOwned env s d
      → Known env t d × IsOwned env t d
  stays-IsOwned Reaches.here known o = (known, o)
  stays-IsOwned (Reaches.next r x) known o =
      let (known', o') = stays-IsOwned r known o in
      ((Happens-Step stores laws bank denoms x).knows d known', Happens-IsOwned x known' o')

-- A denom that the bank knows and that has an admin has one in every state that the chain reaches:
-- messages that pass their stateless checks can pass a denom on, and never give it up.
pub Reaches-IsOwned :
    (env : Env) (stores : StoreLaws env) (laws : AddressLaws env) (bank : BankLaws env)
    (denoms : DenomLaws env) (d : Bytes) {s t : State env}
    → Reaches env s t
    → Known env s d
    → IsOwned env s d
    → IsOwned env t d
Reaches-IsOwned env stores laws bank denoms d r known o =
    (stays-IsOwned stores laws bank denoms d r known o).1
