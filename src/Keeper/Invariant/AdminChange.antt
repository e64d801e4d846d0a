-- ===== src/Keeper/Invariant/AdminChange.antt =====
-- ChangeAdmin keeps the invariant, however it ends.
use tokenfactory.Base.{◌≡◌, ◌≢◌, refl, sym, ap, subst, ◌∙◌, some, [], Option-cases, inl, inr}
use tokenfactory.Base.Bytes.{Bytes}
use tokenfactory.Base.Outcome
use tokenfactory.Base.Outcome.{Outcome, ok, err, panic}
use tokenfactory.Env.{Env, StoreLaws, AddressLaws}
use tokenfactory.Types.Keys.{authority_key}
use tokenfactory.Types.Authority.{DenomAuthorityMetadata, no_admin, authority_validate}
use tokenfactory.Types.Events.{Event}
use tokenfactory.Types.Messages.{MsgChangeAdmin}
use tokenfactory.Codec.Authority.{unmarshal, unmarshal_from}
use tokenfactory.Keeper.Exec.{after, modify, pure, ◌>>◌}
use tokenfactory.Keeper.State.{State, emit}
use tokenfactory.Keeper.Admins.{set_admin, or_nil}
use tokenfactory.Keeper.Admins.Laws.{written, get-at_key, set_authority_metadata_lem}
use tokenfactory.Keeper.MsgServer.{handle_change_admin, check_admin}
use tokenfactory.Keeper.MsgServer.Authority.{
  IsAdmin, check_admin_passed, check_admin_unchanged, set_admin-set_authority_metadata,
}
use tokenfactory.Keeper.Invariant.Writes.{IsWellFormed-written}
use tokenfactory.Keeper.Invariant.Calls.{Step, Step-chain, Step-trans}

unmarshal-nil : unmarshal [] ≡ ok no_admin
unfolding unmarshal unmarshal_from
unmarshal-nil = refl

module _ {env : Env} where
  -- A denom with an admin has authority metadata in the store.
  IsAdmin-stored :
      (s : State env) (d x : Bytes)
      → IsAdmin env s d x
      → x ≢ []
      → (b : Bytes) × (env.kv_get s.store (authority_key d) ≡ some b)
  IsAdmin-stored s d x h n = elim (Option-cases (env.kv_get s.store (authority_key d))) [
    | inl e ↦
        let read : unmarshal [] ≡ ok (record { admin = x }) =
          ap (λ b. unmarshal (or_nil b)) (sym e) ∙ sym (get-at_key env d s) ∙ h in
        absurd
          (n (ap DenomAuthorityMetadata.admin (Outcome.ok-injective (sym read ∙ unmarshal-nil))))
    | inr stored ↦ stored
  ]

module _ {env : Env} (stores : StoreLaws env) (laws : AddressLaws env) where
  set_admin-Step :
      (s : State env) (d x a : Bytes)
      → IsAdmin env s d x
      → x ≢ []
      → Step env s (set_admin env d a s).1
  set_admin-Step s d x a h n =
      subst (λ (r : Outcome (Unit {0}) × State env). Step env s r.1)
        (sym (
          set_admin-set_authority_metadata env s d x a h
          ∙ set_authority_metadata_lem env d (record { admin = a }) s))
        (go (authority_validate env (record { admin = a })) refl)
    where
      go :
          (v : Outcome (Unit {0}))
          → authority_validate env (record { admin = a }) ≡ v
          → Step env s (after (λ _. modify (written env d (record { admin = a }))) (v, s)).1
      go (ok _) e = record {
        keeps = λ w.
            let (b, stored) = IsAdmin-stored s d x h n in
            let (k, known) = w.registered d b stored in
            IsWellFormed-written stores laws d (record { admin = a }) s e known w;
        knows = λ q k. k;
      }
      go (err y) e = Step-chain env s s refl (λ q k. k)
      go (panic y) e = Step-chain env s s refl (λ q k. k)

  emit_last-Step :
      (e : Event) (s : State env) (r : Outcome (Unit {0}) × State env)
      → Step env s r.1
      → Step env s (after (λ _. modify (emit env e)) r).1
  emit_last-Step e s (ok u, t) h = Step-trans env s t _ h (Step-chain env t _ refl (λ d k. k))
  emit_last-Step e s (err y, t) h = h
  emit_last-Step e s (panic y, t) h = h

  pub handle_change_admin-Step :
      (x : MsgChangeAdmin) (s : State env)
      → x.sender ≢ []
      → Step env s (handle_change_admin env x s).1
  unfolding handle_change_admin
  handle_change_admin-Step x s n = go _ (check_admin env x.denom x.sender s) refl
    where
      stays : {t : State env} → (check_admin env x.denom x.sender s).1 ≡ t → Step env s t
      stays e =
          subst (Step env s) (sym (check_admin_unchanged env x.denom x.sender s) ∙ e)
            (Step-chain env s s refl (λ q k. k))

      go :
          (ev : Event) (r : Outcome (Unit {0}) × State env)
          → check_admin env x.denom x.sender s ≡ r
          → Step env s (after (λ _. set_admin env x.denom x.new_admin >> modify (emit env ev)) r).1
      go ev (ok u, t) e =
          let (_, admin) = check_admin_passed env x.denom x.sender s t e in
          let unchanged = sym (ap (λ r. r.1) e) ∙ check_admin_unchanged env x.denom x.sender s in
          emit_last-Step ev s (set_admin env x.denom x.new_admin t) (
            subst (λ q. Step env s (set_admin env x.denom x.new_admin q).1) (sym unchanged)
              (set_admin-Step s x.denom x.sender x.new_admin admin n))
      go ev (err y, t) e = stays (ap (λ r. r.1) e)
      go ev (panic y, t) e = stays (ap (λ r. r.1) e)

  pub then_pure-Step :
      {A B : Type 0} (s : State env) (b : B) (r : Outcome A × State env)
      → Step env s r.1
      → Step env s (after {B = B} (λ _. pure b) r).1
  then_pure-Step s b (ok a, t) h = h
  then_pure-Step s b (err e, t) h = h
  then_pure-Step s b (panic e, t) h = h
