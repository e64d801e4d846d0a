-- ===== src/Keeper/Invariant/Reach.antt =====
-- The invariant along any run of the chain.
use tokenfactory.Base.{◌≡◌, refl, subst, Option}
use tokenfactory.Base.Bytes.{Bytes}
use tokenfactory.Base.Outcome.{Outcome, ok}
use tokenfactory.Env.{Env, StoreLaws, AddressLaws, BankLaws, DenomLaws}
use tokenfactory.Types.Messages.{Msg, validate_basic}
use tokenfactory.Types.Messages.Signers.{sender_nonempty}
use tokenfactory.Keeper.Exec.{pure, ◌>>=◌}
use tokenfactory.Keeper.State.{Known, State, Action}
use tokenfactory.Keeper.MsgServer.{handle}
use tokenfactory.Keeper.Invariant.{IsWellFormed}
use tokenfactory.Keeper.Invariant.Calls.{
  Step, Step-chain, Step-trans, Keeps, Keeps-pure, Keeps-bind,
}
use tokenfactory.Keeper.Invariant.Handlers.{
  handle_mint-Keeps, handle_burn-Keeps, handle_force_transfer-Keeps,
  handle_set_denom_metadata-Keeps,
}
use tokenfactory.Keeper.Invariant.Creation.{handle_create_denom-Keeps}
use tokenfactory.Keeper.Invariant.AdminChange.{handle_change_admin-Step, then_pure-Step}

module _ {env : Env} (stores : StoreLaws env) (laws : AddressLaws env) (bank : BankLaws env)
    (denoms : DenomLaws env) where
  handle_and_respond-Keeps :
      {A : Type 0} (m : Action env A) (f : A → Option Bytes)
      → Keeps env m
      → Keeps env (m >>= λ a. pure (f a))
  handle_and_respond-Keeps m f h = Keeps-bind env m _ h (λ a. Keeps-pure env (f a))

  pub handle-Step :
      (m : Msg env) (s : State env) → validate_basic env m ≡ ok tt → Step env s (handle env m s).1
  unfolding handle
  handle-Step (Msg.create_denom m) s v =
      (handle_and_respond-Keeps _ _ (handle_create_denom-Keeps stores laws bank denoms m)).at s
  handle-Step (Msg.mint m) s v = (handle_and_respond-Keeps _ _ (handle_mint-Keeps env bank m)).at s
  handle-Step (Msg.burn m) s v = (handle_and_respond-Keeps _ _ (handle_burn-Keeps env bank m)).at s
  handle-Step (Msg.force_transfer m) s v =
      (handle_and_respond-Keeps _ _ (handle_force_transfer-Keeps env bank m)).at s
  handle-Step (Msg.change_admin m) s v =
      then_pure-Step stores laws s _ _
        (handle_change_admin-Step stores laws m s (sender_nonempty env laws (Msg.change_admin m) v))
  handle-Step (Msg.set_denom_metadata m) s v =
      (handle_and_respond-Keeps _ _ (handle_set_denom_metadata-Keeps env bank m)).at s

  -- A message that passes its stateless check keeps the invariant, whether it is carried out, fails by
  -- an error on the way or panics.
  pub handle-IsWellFormed :
      (m : Msg env) (s : State env)
      → validate_basic env m ≡ ok tt
      → IsWellFormed env s
      → IsWellFormed env (handle env m s).1
  handle-IsWellFormed m s v w = (handle-Step m s v).keeps w

-- What happens to the state between two moments. A message that fails is undone by the caller; the
-- other modules do not write this module's store, and never drop denom metadata.
pub data Happens (env : Env) : State env → State env → Type 0 where
  delivered :
      (m : Msg env) {r : Option Bytes} {s t : State env}
      → validate_basic env m ≡ ok tt
      → handle env m s ≡ (ok r, t)
      → Happens env s t
  elsewhere :
      {s t : State env}
      → t.store ≡ s.store
      → ((d : Bytes) → Known env s d → Known env t d)
      → Happens env s t

pub data Reaches (env : Env) (s : State env) : State env → Type 0 where
  here : Reaches env s s
  next : {t u : State env} → Reaches env s t → Happens env t u → Reaches env s u

module _ {env : Env} (stores : StoreLaws env) (laws : AddressLaws env) (bank : BankLaws env)
    (denoms : DenomLaws env) where
  pub Happens-Step : {s t : State env} → Happens env s t → Step env s t
  Happens-Step {s} (Happens.delivered m v e) =
      subst (λ (r : Outcome (Option Bytes) × State env). Step env s r.1) e
        (handle-Step stores laws bank denoms m s v)
  Happens-Step {s} {t} (Happens.elsewhere same knows) = Step-chain env s t same knows

  pub Reaches-Step : {s t : State env} → Reaches env s t → Step env s t
  Reaches-Step {s} Reaches.here = Step-chain env s s refl (λ d k. k)
  Reaches-Step {s} (Reaches.next {t} {u} r h) =
      Step-trans env s t u (Reaches-Step r) (Happens-Step h)

-- Every state that the chain reaches from a well-formed one, by messages and by what other modules
-- do, is well-formed.
pub Reaches-IsWellFormed :
    (env : Env) (stores : StoreLaws env) (laws : AddressLaws env) (bank : BankLaws env)
    (denoms : DenomLaws env) {s t : State env}
    → Reaches env s t
    → IsWellFormed env s
    → IsWellFormed env t
Reaches-IsWellFormed env stores laws bank denoms r w =
    (Reaches-Step stores laws bank denoms r).keeps w
