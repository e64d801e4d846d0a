-- ===== src/Keeper/Invariant/Creation.antt =====
-- CreateDenom keeps the invariant, however it ends.
use tokenfactory.Base.{◌≡◌, refl, sym, subst, [], ◌∷◌, inl, inr, false, Option-cases}
use tokenfactory.Base.Bytes.{Bytes, contains}
use tokenfactory.Base.Outcome.{Outcome, ok, err, panic}
use tokenfactory.Env.{Env, StoreLaws, AddressLaws, BankLaws, DenomLaws, kv_get-kv_set_self}
use tokenfactory.Types.Keys.{authority_key}
use tokenfactory.Types.Keys.Separation.{bar}
use tokenfactory.Types.Denoms.RoundTrip.{get_token_denom-WasBuilt}
use tokenfactory.Types.Denoms.Bars.{WasBuilt-no_bar}
use tokenfactory.Types.Authority.{authority_validate}
use tokenfactory.Types.Messages.{MsgCreateDenom}
use tokenfactory.Codec.Authority.{marshal}
use tokenfactory.Keeper.Exec.{after, ◌>>=◌}
use tokenfactory.Keeper.State.{State, Action}
use tokenfactory.Keeper.Admins.Laws.{written}
use tokenfactory.Keeper.CreateDenom.{
  validate_create_denom, register_metadata, create_denom_after_validation, create_denom,
}
use tokenfactory.Keeper.CreateDenom.Laws.{
  listed, validate_create_denom_ok, register_metadata_new, register_metadata_old,
  register_metadata_cases, create_denom_after_validation_lem,
}
use tokenfactory.Keeper.MsgServer.{handle_create_denom}
use tokenfactory.Keeper.Invariant.Writes.{IsWellFormed-written, IsWellFormed-listed}
use tokenfactory.Keeper.Invariant.Calls.{
  Step, Step-chain, Step-trans, Keeps, Keeps-bind, Keeps-pure, keeps_rules,
}
use tokenfactory.Keeper.Invariant.Handlers.{
  set_denom_metadata_known, charge_for_create_denom-Keeps, emit-Keeps,
}

module _ {env : Env} (bank : BankLaws env) where
  pub Step-register_metadata : (d : Bytes) (s : State env) → Step env s (register_metadata env d s)
  Step-register_metadata d s = elim (Option-cases (env.get_denom_metadata s.chain d)) [
    | inl e ↦ subst (Step env s) (sym (register_metadata_new env d s e)) (
        Step-chain env s _ refl (λ d' k.
          set_denom_metadata_known env bank (env.new_metadata ((d, 0) ∷ []) d) s.chain d' k.1))
    | inr (m, e) ↦
        subst (Step env s) (sym (register_metadata_old env d s e))
          (Step-chain env s s refl (λ d' k. k))
  ]

module _ {env : Env} (stores : StoreLaws env) (laws : AddressLaws env) (bank : BankLaws env) where
  create_denom_after_validation-Keeps :
      (c d : Bytes) → contains bar c ≡ false → Keeps env (create_denom_after_validation env c d)
  create_denom_after_validation-Keeps c d nb = record {
    at = λ s.
        subst (λ (r : Outcome (Unit {0}) × State env). Step env s r.1)
          (sym (create_denom_after_validation_lem env c d s))
          (go s (authority_validate env (record { admin = c })) refl);
  }
    where
      go :
          (s : State env) (v : Outcome (Unit {0}))
          → authority_validate env (record { admin = c }) ≡ v
          → Step env s
              (after {A = Unit {0}} {B = Unit {0}}
                (λ _ t. (ok tt, listed env c d (written env d (record { admin = c }) t)))
                (v, register_metadata env d s)).1
      go s (ok _) e =
          let (m, known) = register_metadata_cases env bank d s in
          let t = register_metadata env d s in
          let step = Step-register_metadata bank d s in
          record {
            keeps = λ w.
                IsWellFormed-listed stores laws c d (written env d (record { admin = c }) t) nb
                  (kv_get-kv_set_self stores (authority_key d) (marshal (record { admin = c }))
                    t.store)
                  (IsWellFormed-written stores laws d (record { admin = c }) t e known
                    (step.keeps w));
            knows = step.knows;
          }
      go s (err x) e = Step-register_metadata bank d s
      go s (panic x) e = Step-register_metadata bank d s

  -- A call that may use what the call before it has found out.
  Keeps-bind_eq :
      {A B : Type 0} (m : Action env A) (f : A → Action env B)
      → Keeps env m
      → ((a : A) (s t : State env) → m s ≡ (ok a, t) → Keeps env (f a))
      → Keeps env (m >>= f)
  Keeps-bind_eq {A} {B} m f hm hf = record { at = λ s. go s (m s) refl }
    where
      first : (s : State env) {r : Outcome A × State env} → m s ≡ r → Step env s r.1
      first s e = subst (λ (q : Outcome A × State env). Step env s q.1) e (hm.at s)

      go : (s : State env) (r : Outcome A × State env) → m s ≡ r → Step env s (after f r).1
      go s (ok a, t) e = Step-trans env s t _ (first s e) ((hf a s t e).at t)
      go s (err x, t) e = first s e
      go s (panic x, t) e = first s e

  validate_create_denom-Keeps : (c s : Bytes) → Keeps env (validate_create_denom env c s)
  unfolding validate_create_denom
  validate_create_denom-Keeps c s = search keeps_rules depth 12

  module _ (denoms : DenomLaws env) where
    create_denom-Keeps : (c sub : Bytes) → Keeps env (create_denom env c sub)
    unfolding create_denom
    create_denom-Keeps c sub =
        Keeps-bind_eq (validate_create_denom env c sub) _ (validate_create_denom-Keeps c sub)
          λ d s t e.
            let (_, new) = validate_create_denom_ok env c sub d s t e in
            let nb = WasBuilt-no_bar denoms ((get_token_denom-WasBuilt env c sub d).0 new.built) in
            Keeps-bind env _ _ (charge_for_create_denom-Keeps env bank c) λ _.
              Keeps-bind env _ _ (create_denom_after_validation-Keeps c d nb)
                (λ _. Keeps-pure env d)

    pub handle_create_denom-Keeps : (m : MsgCreateDenom) → Keeps env (handle_create_denom env m)
    unfolding handle_create_denom
    handle_create_denom-Keeps m =
        Keeps-bind env _ _ (create_denom-Keeps m.sender m.subdenom)
          (λ d. Keeps-bind env _ _ (emit-Keeps env bank _) (λ _. Keeps-pure env d))
