-- ===== src/Keeper/Registry/Run.antt =====
-- The keeper carries out the transitions of the registry, along any run.
use tokenfactory.Base.{◌≡◌, ◌≢◌, sym, ap, subst, ◌∙◌, List, [], ◌∷◌, Option, inl, inr, Elem}
use tokenfactory.Base.Bytes.{Bytes, same-cases}
use tokenfactory.Base.Outcome.{ok}
use tokenfactory.Env.{Env, StoreLaws, AddressLaws, BankLaws, DenomLaws}
use tokenfactory.Types.Denoms.{token_denom}
use tokenfactory.Types.Denoms.RoundTrip.{get_token_denom-WasBuilt}
use tokenfactory.Types.Messages.{Msg, MsgCreateDenom}
use tokenfactory.Keeper.Exec.{pure, ◌>>=◌}
use tokenfactory.Keeper.Exec.Laws.{>>=-eq-ok}
use tokenfactory.Keeper.State.{State, Action}
use tokenfactory.Keeper.Admins.{get_authority_metadata}
use tokenfactory.Keeper.Creators.Laws.{get_denoms_from_creator-same_store}
use tokenfactory.Keeper.MsgServer.{handle, handle_create_denom, handle_change_admin}
use tokenfactory.Keeper.MsgServer.Outcomes.{
  handle_create_denom-effect, handle_change_admin-effect, same_store-get_authority_metadata,
}
use tokenfactory.Keeper.MsgServer.SameStore.{
  KeepsStore, handle_mint-KeepsStore, handle_burn-KeepsStore, handle_force_transfer-KeepsStore,
  handle_set_denom_metadata-KeepsStore,
}
use tokenfactory.Keeper.Registry.{
  assign, register, Agrees, view, transition, transitions, ArePermitted,
}
use tokenfactory.Keeper.Registry.Refines.{
  Agrees-trans, Agrees-refl, transitions-Agrees, ArePermitted-Agrees, handle-IsPermitted,
}

-- A run: messages that are carried out, and changes of the rest of the chain between them. A message
-- that fails is undone, and leaves no trace.
pub data Runs (env : Env) : List (Msg env) → State env → State env → Type 0 where
  done : {s : State env} → Runs env [] s s
  took :
      {m : Msg env} {ms : List (Msg env)} {s t u : State env} {r : Option Bytes}
      → handle env m s ≡ (ok r, t)
      → Runs env ms t u
      → Runs env (m ∷ ms) s u
  elsewhere :
      {ms : List (Msg env)} {s t u : State env}
      → t.store ≡ s.store
      → Runs env ms t u
      → Runs env ms s u

module _ {env : Env} (stores : StoreLaws env) (laws : AddressLaws env) where
  pub same_store-Agrees : (s t : State env) → t.store ≡ s.store → Agrees (view env t) (view env s)
  unfolding view
  same_store-Agrees s t e = record {
    admins = λ d. same_store-get_authority_metadata env stores laws d s t e;
    lists = λ c d nb.
        let same = get_denoms_from_creator-same_store {env = env} stores c d s t e in
        ((λ i. subst (Elem d) same i), (λ i. subst (Elem d) (sym same) i));
  }

  -- The handlers that write nothing to the store, and the response behind them.
  kept-Agrees :
      {A : Type 0} (m : Action env A) (f : A → Option Bytes) (s t : State env) {r : Option Bytes}
      → KeepsStore env m
      → (m >>= λ a. pure (f a)) s ≡ (ok r, t)
      → Agrees (view env t) (view env s)
  kept-Agrees m f s t h e =
      let (_, u, first, last) = >>=-eq-ok m _ s e in
      same_store-Agrees s t
        (sym (ap (λ x. x.1.store) last) ∙ sym (ap (λ x. x.1.store) first) ∙ (h.at s).store)

  assigned :
      (d a : Bytes) (s t : State env)
      → get_authority_metadata env d t ≡ ok (record { admin = a })
      → ((e : Bytes) → d ≢ e → get_authority_metadata env e t ≡ get_authority_metadata env e s)
      → (e : Bytes) → (view env t).admin_of e ≡ (assign d a (view env s)).admin_of e
  unfolding view assign
  assigned d a s t self others e = elim (same-cases d e) [
    | inl (p, q) ↦ ap (λ x. get_authority_metadata env x t) (sym p) ∙ self ∙ rw q
    | inr (n, q) ↦ others e n ∙ rw q
  ]

  module _ (bank : BankLaws env) (denoms : DenomLaws env) where
    create_denom-Agrees :
        (m : MsgCreateDenom) (d : Bytes) (s t : State env)
        → handle_create_denom env m s ≡ (ok d, t)
        → Agrees (view env t) (transition env (Msg.create_denom m) (view env s))
    unfolding transition register view
    create_denom-Agrees m d s t h =
        let (built, _, _, admin, others, index, _, _) =
          handle_create_denom-effect env stores laws bank denoms m d s t h in
        let shape : d ≡ token_denom m.sender m.subdenom =
          ((get_token_denom-WasBuilt env m.sender m.subdenom d).0 built).shape in
        subst (λ x. Agrees (view env t) (register m.sender x (view env s))) shape
          (record { admins = assigned d m.sender s t admin others; lists = index })

    -- A message that goes through carries out its transition.
    pub handle-Agrees :
        (m : Msg env) (s t : State env) {r : Option Bytes}
        → handle env m s ≡ (ok r, t)
        → Agrees (view env t) (transition env m (view env s))
    unfolding handle transition view
    handle-Agrees (Msg.create_denom m) s t h =
        let (d, u, first, last) = >>=-eq-ok (handle_create_denom env m) _ s h in
        Agrees-trans _ _ _ (same_store-Agrees u t (sym (ap (λ x. x.1.store) last)))
          (create_denom-Agrees m d s u first)
    handle-Agrees (Msg.mint m) s t h = kept-Agrees _ _ s t (handle_mint-KeepsStore env m) h
    handle-Agrees (Msg.burn m) s t h = kept-Agrees _ _ s t (handle_burn-KeepsStore env m) h
    handle-Agrees (Msg.force_transfer m) s t h =
        kept-Agrees _ _ s t (handle_force_transfer-KeepsStore env m) h
    handle-Agrees (Msg.change_admin m) s t h =
        let (_, u, first, last) = >>=-eq-ok (handle_change_admin env m) _ s h in
        let (_, _, admin, others, index, _) =
          handle_change_admin-effect env stores laws m s u first in
        Agrees-trans _ _ _ (same_store-Agrees u t (sym (ap (λ x. x.1.store) last))) (record {
          admins = assigned m.denom m.new_admin s u admin others;
          lists = λ c e nb. index c e;
        })
    handle-Agrees (Msg.set_denom_metadata m) s t h =
        kept-Agrees _ _ s t (handle_set_denom_metadata-KeepsStore env m) h

-- The keeper refines the registry: along any run, each message that was carried out was permitted in the
-- registry that the messages before it had left, and the last state holds the registry that all of them
-- leave, whatever else happened on the chain and whatever their gas, fees and coins.
pub Runs-Agrees :
    {env : Env} (stores : StoreLaws env) (laws : AddressLaws env) (bank : BankLaws env)
    (denoms : DenomLaws env) {ms : List (Msg env)} {s t : State env}
    → Runs env ms s t
    → ArePermitted env ms (view env s) × Agrees (view env t) (transitions env ms (view env s))
unfolding ArePermitted transitions
Runs-Agrees {env} stores laws bank denoms (Runs.done {s}) = (tt, Agrees-refl (view env s))
Runs-Agrees {env} stores laws bank denoms (Runs.took {m} {ms} {s} {t} e rest) =
    let (ps, agrees) = Runs-Agrees stores laws bank denoms rest in
    let one = handle-Agrees stores laws bank denoms m s t e in
    (
      (
        handle-IsPermitted env m s t e,
        ArePermitted-Agrees env ms (view env t) (transition env m (view env s)) one ps,
      ),
      Agrees-trans _ _ _ agrees
          (transitions-Agrees env ms (view env t) (transition env m (view env s)) one),
    )
Runs-Agrees {env} stores laws bank denoms (Runs.elsewhere {ms} {s} {t} equal rest) =
    let (ps, agrees) = Runs-Agrees stores laws bank denoms rest in
    let one = same_store-Agrees stores laws s t equal in
    (
      ArePermitted-Agrees env ms (view env t) (view env s) one ps,
      Agrees-trans _ _ _ agrees (transitions-Agrees env ms (view env t) (view env s) one),
    )
