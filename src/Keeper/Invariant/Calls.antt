-- ===== src/Keeper/Invariant/Calls.antt =====
-- Calls that keep the invariant, one rule for each way to build a call.
use tokenfactory.Base.{◌≡◌, refl, ◌∙◌, Bool, true, false, if◌then◌else◌}
use tokenfactory.Base.Bytes.{Bytes, same}
use tokenfactory.Base.Outcome.{Outcome, Error}
use tokenfactory.Env.{Env, Effect}
use tokenfactory.Keeper.Exec.{lift, gets, asks, pure, fail_if, ◌>>=◌}
use tokenfactory.Keeper.Exec.Laws.{Does, Does-bind}
use tokenfactory.Keeper.State.{State, Action, Known, call}
use tokenfactory.Keeper.Invariant.{IsWellFormed}
use tokenfactory.Keeper.Invariant.Writes.{IsWellFormed-chain}

module _ (env : Env) where
  -- What a call keeps: the invariant, and the denoms that the bank knows.
  pub record Step (s t : State env) : Type 0 where
    pub keeps : IsWellFormed env s → IsWellFormed env t
    pub knows : (d : Bytes) → Known env s d → Known env t d

  pub Step-trans : (s t u : State env) → Step s t → Step t u → Step s u
  Step-trans s t u h k = record {
    keeps = λ w. k.keeps (h.keeps w);
    knows = λ d w. k.knows d (h.knows d w);
  }

  -- A step over the chain alone, in which no denom metadata goes missing.
  pub Step-chain :
      (s t : State env)
      → t.store ≡ s.store
      → ((d : Bytes) → Known env s d → Known env t d)
      → Step s t
  Step-chain s t same knows = record {
    keeps = IsWellFormed-chain s t same (λ d m k. knows d (m, k));
    knows = knows;
  }

  -- Whatever its outcome, the call keeps the invariant.
  abbrev pub Keeps : {A : Type 0} → Action env A → Type 0
  Keeps m = Does Step m

  module _ {A : Type 0} where
    pub Keeps-lift : (r : Outcome A) → Keeps (lift r)
    Keeps-lift r = record { at = λ s. Step-chain s s refl (λ d k. k) }

    pub Keeps-gets : (f : State env → A) → Keeps (gets f)
    Keeps-gets f = record { at = λ s. Step-chain s s refl (λ d k. k) }

    pub Keeps-asks : (f : State env → Outcome A) → Keeps (asks f)
    Keeps-asks f = record { at = λ s. Step-chain s s refl (λ d k. k) }

    pub Keeps-pure : (a : A) → Keeps (pure a)
    Keeps-pure a = record { at = λ s. Step-chain s s refl (λ d k. k) }

    pub Keeps-if : (b : Bool) (m n : Action env A) → Keeps m → Keeps n → Keeps (if b then m else n)
    Keeps-if true m n hm hn = hm
    Keeps-if false m n hm hn = hn

    -- A call of another keeper that leaves the denom metadata as it is.
    pub Keeps-call :
        (f : Effect env.Chain A)
        → ((c : env.Chain) (d : Bytes)
            → env.get_denom_metadata (f c).1 d ≡ env.get_denom_metadata c d)
        → Keeps (call env f)
    Keeps-call f h = record { at = λ s. Step-chain s _ refl (λ d k. (k.0, h s.chain d ∙ k.1)) }

  pub Keeps-fail_if : (b : Bool) (e : Error) → Keeps (fail_if b e)
  Keeps-fail_if b e = record { at = λ s. Step-chain s s refl (λ d k. k) }

  module _ {A B : Type 0} (m : Action env A) (f : A → Action env B) where
    pub Keeps-bind : Keeps m → ((a : A) → Keeps (f a)) → Keeps (m >>= f)
    Keeps-bind = Does-bind Step-trans m f

pub ruleset keeps_rules = (
  Keeps-lift, Keeps-gets, Keeps-asks, Keeps-pure, Keeps-if, Keeps-call, Keeps-fail_if, Keeps-bind,
)
