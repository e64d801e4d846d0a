-- ===== src/Keeper/Invariant/Renounced.antt =====
-- A denom whose admin is empty is out of everyone's reach.
use tokenfactory.Base.{◌≡◌, ◌≢◌, sym, ap, ◌∙◌, [], Option, none, some}
use tokenfactory.Base.Bytes.{Bytes}
use tokenfactory.Base.Outcome
use tokenfactory.Base.Outcome.{Outcome, ok, err, panic}
use tokenfactory.Env.{Env, StoreLaws, AddressLaws, BankLaws, DenomLaws}
use tokenfactory.Types.Authority.{DenomAuthorityMetadata}
use tokenfactory.Types.Messages.{Msg, validate_basic}
use tokenfactory.Types.Messages.Signers.{sender_nonempty}
use tokenfactory.Keeper.Exec.{pure, ◌>>=◌}
use tokenfactory.Keeper.Exec.Laws.{>>=-eq-ok}
use tokenfactory.Keeper.State.{Known, State, Action}
use tokenfactory.Keeper.Admins.{get_authority_metadata}
use tokenfactory.Keeper.MsgServer.{handle_create_denom, handle_change_admin, handle}
use tokenfactory.Keeper.MsgServer.Authority.{IsAdmin, subject, handle-Refuses, handle_needs-IsAdmin}
use tokenfactory.Keeper.MsgServer.Refuses.{Refuses}
use tokenfactory.Keeper.MsgServer.SameStore.{
  KeepsStore, handle_mint-KeepsStore, handle_burn-KeepsStore, handle_force_transfer-KeepsStore,
  handle_set_denom_metadata-KeepsStore,
}
use tokenfactory.Keeper.MsgServer.Outcomes.{
  handle_create_denom-effect, handle_change_admin-effect, same_store-get_authority_metadata,
}
use tokenfactory.Keeper.Invariant.Reach.{Happens, Reaches, Happens-Step}

module _ (env : Env) where
  -- The denom whose admin a message replaces.
  abbrev pub reassigned : Msg env → Option Bytes
  reassigned (Msg.change_admin m) = some m.denom
  reassigned _ = none

module _ {env : Env} (stores : StoreLaws env) (laws : AddressLaws env) where
  -- Only one text is the admin.
  pub IsAdmin-unique :
      (s : State env) (d x y : Bytes) → IsAdmin env s d x → IsAdmin env s d y → x ≡ y
  IsAdmin-unique s d x y h k = ap DenomAuthorityMetadata.admin (Outcome.ok-injective (sym h ∙ k))

  kept :
      {A : Type 0} (m : Action env A) (f : A → Option Bytes) (d : Bytes) (s t : State env)
      {r : Option Bytes}
      → KeepsStore env m
      → (m >>= λ a. pure (f a)) s ≡ (ok r, t)
      → get_authority_metadata env d t ≡ get_authority_metadata env d s
  kept m f d s t h e =
      let (_, u, first, last) = >>=-eq-ok m _ s e in
      same_store-get_authority_metadata env stores laws d s t
        (sym (ap (λ x. x.1.store) last) ∙ sym (ap (λ x. x.1.store) first) ∙ (h.at s).store)

  reassigned-subject :
      (msg : Msg env) (d : Bytes) → reassigned env msg ≡ some d → subject env msg ≡ some d
  reassigned-subject (Msg.create_denom m) d e = cc
  reassigned-subject (Msg.mint m) d e = cc
  reassigned-subject (Msg.burn m) d e = cc
  reassigned-subject (Msg.force_transfer m) d e = cc
  reassigned-subject (Msg.change_admin m) d e = e
  reassigned-subject (Msg.set_denom_metadata m) d e = cc

  -- A message that goes through leaves the authority metadata of each denom that the bank knows alone,
  -- but a ChangeAdmin that of its own denom.
  pub handle-get_authority_metadata :
      (bank : BankLaws env) (denoms : DenomLaws env) (msg : Msg env) (d : Bytes) (s t : State env)
      {r : Option Bytes}
      → handle env msg s ≡ (ok r, t)
      → Known env s d
      → reassigned env msg ≢ some d
      → get_authority_metadata env d t ≡ get_authority_metadata env d s
  unfolding handle
  handle-get_authority_metadata bank denoms (Msg.create_denom m) d s t e known n =
      let (d', u, first, last) = >>=-eq-ok (handle_create_denom env m) _ s e in
      let (_, unknown, _, _, others, _, _, _) =
        handle_create_denom-effect env stores laws bank denoms m d' s u first in
      same_store-get_authority_metadata env stores laws d u t (sym (ap (λ x. x.1.store) last))
      ∙ others d (λ p.
        let clash : none ≡ some known.0 =
          sym unknown ∙ ap (env.get_denom_metadata s.chain) p ∙ known.1 in
        cc)
  handle-get_authority_metadata bank denoms (Msg.mint m) d s t e known n =
      kept _ _ d s t (handle_mint-KeepsStore env m) e
  handle-get_authority_metadata bank denoms (Msg.burn m) d s t e known n =
      kept _ _ d s t (handle_burn-KeepsStore env m) e
  handle-get_authority_metadata bank denoms (Msg.force_transfer m) d s t e known n =
      kept _ _ d s t (handle_force_transfer-KeepsStore env m) e
  handle-get_authority_metadata bank denoms (Msg.change_admin m) d s t e known n =
      let (_, u, first, last) = >>=-eq-ok (handle_change_admin env m) _ s e in
      let (_, _, _, others, _, _) = handle_change_admin-effect env stores laws m s u first in
      same_store-get_authority_metadata env stores laws d u t (sym (ap (λ x. x.1.store) last))
      ∙ others d (λ p. n (ap some p))
  handle-get_authority_metadata bank denoms (Msg.set_denom_metadata m) d s t e known n =
      kept _ _ d s t (handle_set_denom_metadata-KeepsStore env m) e

  -- Everyone but nobody is refused.
  IsAdmin-nobody-Refuses :
      (msg : Msg env) (s : State env) (d : Bytes)
      → validate_basic env msg ≡ ok tt
      → subject env msg ≡ some d
      → IsAdmin env s d []
      → Refuses (handle env msg) s
  IsAdmin-nobody-Refuses msg s d v e h =
      handle-Refuses env msg s d e
        (λ k. sender_nonempty env laws msg v (IsAdmin-unique s d _ [] k h))

  module _ (bank : BankLaws env) (denoms : DenomLaws env) (d : Bytes) where
    Happens-IsAdmin-nobody :
        {s t : State env}
        → Happens env s t
        → Known env s d
        → IsAdmin env s d []
        → IsAdmin env t d []
    Happens-IsAdmin-nobody {s} {t} (Happens.delivered msg v e) known h =
        handle-get_authority_metadata bank denoms msg d s t e known (λ on.
          sender_nonempty env laws msg v (
            IsAdmin-unique s d _ []
              (handle_needs-IsAdmin env msg s t d (reassigned-subject msg d on) e) h))
        ∙ h
    Happens-IsAdmin-nobody {s} {t} (Happens.elsewhere same knows) known h =
        same_store-get_authority_metadata env stores laws d s t same ∙ h

    Reaches-IsAdmin-nobody :
        {s t : State env}
        → Reaches env s t
        → Known env s d
        → IsAdmin env s d []
        → Known env t d × IsAdmin env t d []
    Reaches-IsAdmin-nobody Reaches.here known h = (known, h)
    Reaches-IsAdmin-nobody (Reaches.next r x) known h =
        let (known', h') = Reaches-IsAdmin-nobody r known h in
        (
          (Happens-Step stores laws bank denoms x).knows d known',
          Happens-IsAdmin-nobody x known' h',
        )

-- A denom that the bank knows and whose admin is empty (as a genesis may say, or because it is no denom
-- of the module) stays so in every state that the chain reaches, and each message on it that passes its stateless
-- check fails there and changes nothing.
pub Reaches-renounced :
    (env : Env) (stores : StoreLaws env) (laws : AddressLaws env) (bank : BankLaws env)
    (denoms : DenomLaws env) (d : Bytes) {s t : State env}
    → Reaches env s t
    → Known env s d
    → IsAdmin env s d []
    → IsAdmin env t d []
      × ((msg : Msg env)
          → validate_basic env msg ≡ ok tt
          → subject env msg ≡ some d
          → Refuses (handle env msg) t)
Reaches-renounced env stores laws bank denoms d {s} {t} r known h =
    let (_, nobody) = Reaches-IsAdmin-nobody stores laws bank denoms d r known h in
    (nobody, (λ msg v e. IsAdmin-nobody-Refuses stores laws msg t d v e nobody))
