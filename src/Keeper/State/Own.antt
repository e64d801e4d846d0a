-- ===== src/Keeper/State/Own.antt =====
-- Calls that leave what is the module's own alone: its store and the events.
use tokenfactory.Base.{◌≡◌, refl, ◌∙◌, Bool, true, false, if◌then◌else◌}
use tokenfactory.Base.Outcome.{Outcome, Error}
use tokenfactory.Env.{Env, Effect}
use tokenfactory.Keeper.Exec.{lift, gets, asks, pure, fail_if, modify, ◌>>=◌}
use tokenfactory.Keeper.Exec.Laws.{
  Fails, Does, DoesOnFailure, Does-bind, DoesOnFailure-bind, DoesOnFailure-then,
}
use tokenfactory.Keeper.State.{State, Action, call}

module _ (env : Env) where
  -- `t` has the store and the events of `s`.
  pub record SameOwn (s t : State env) : Type 0 where
    pub store : t.store ≡ s.store
    pub events : t.events ≡ s.events

  pub SameOwn-trans : (s t u : State env) → SameOwn s t → SameOwn t u → SameOwn s u
  SameOwn-trans s t u h k = record { store = k.store ∙ h.store; events = k.events ∙ h.events }

  -- Whatever its outcome, the call leaves the module's own state alone.
  abbrev pub Foreign : {A : Type 0} → Action env A → Type 0
  Foreign m = Does SameOwn m

  -- If it fails, the call leaves the module's own state alone.
  abbrev pub IsAtomic : {A : Type 0} → Action env A → Type 0
  IsAtomic m = DoesOnFailure SameOwn m

  module _ {A : Type 0} where
    pub Foreign-lift : (r : Outcome A) → Foreign (lift r)
    Foreign-lift r = record { at = λ s. record { store = refl; events = refl } }

    pub Foreign-gets : (f : State env → A) → Foreign (gets f)
    Foreign-gets f = record { at = λ s. record { store = refl; events = refl } }

    pub Foreign-asks : (f : State env → Outcome A) → Foreign (asks f)
    Foreign-asks f = record { at = λ s. record { store = refl; events = refl } }

    pub Foreign-pure : (a : A) → Foreign (pure a)
    Foreign-pure a = record { at = λ s. record { store = refl; events = refl } }

    pub Foreign-call : (f : Effect env.Chain A) → Foreign (call env f)
    Foreign-call f = record { at = λ s. record { store = refl; events = refl } }

    pub Foreign-if :
        (b : Bool) (m n : Action env A) → Foreign m → Foreign n → Foreign (if b then m else n)
    Foreign-if true m n hm hn = hm
    Foreign-if false m n hm hn = hn

    pub IsAtomic-Foreign : (m : Action env A) → Foreign m → IsAtomic m
    IsAtomic-Foreign m h = record { at = λ s _. h.at s }

  pub Foreign-fail_if : (b : Bool) (e : Error) → Foreign (fail_if b e)
  Foreign-fail_if b e = record { at = λ s. record { store = refl; events = refl } }

  module _ {A B : Type 0} (m : Action env A) (f : A → Action env B) where
    pub Foreign-bind : Foreign m → ((a : A) → Foreign (f a)) → Foreign (m >>= f)
    Foreign-bind = Does-bind SameOwn-trans m f

    pub IsAtomic-bind : Foreign m → ((a : A) → IsAtomic (f a)) → IsAtomic (m >>= f)
    IsAtomic-bind = DoesOnFailure-bind SameOwn-trans m f

    -- A call that cannot fail may write behind one that is atomic.
    pub IsAtomic-then :
        IsAtomic m → ((a : A) (s : State env) → ¬ Fails (f a s).0) → IsAtomic (m >>= f)
    IsAtomic-then = DoesOnFailure-then SameOwn-trans m f

  module _ {A : Type 0} (m : Action env A) (g : A → State env → State env) where
    -- The write that ends a handler.
    pub IsAtomic-modify : Foreign m → IsAtomic (m >>= λ a. modify (g a))
    IsAtomic-modify h = IsAtomic-then m _ (IsAtomic-Foreign m h) (λ a s k. k)

  module _ {A : Type 0} (m : Action env A) (g : A → State env → State env) where
    -- A write behind a call that is atomic itself.
    pub IsAtomic-modify_last : IsAtomic m → IsAtomic (m >>= λ a. modify (g a))
    IsAtomic-modify_last h = IsAtomic-then m _ h (λ a s k. k)

    pub IsAtomic-pure_last :
        {B : Type 0} (b : A → B) → IsAtomic m → IsAtomic (m >>= λ a. pure (b a))
    IsAtomic-pure_last b h = IsAtomic-then m _ h (λ a s k. k)

pub ruleset foreign_rules = (
  Foreign-lift, Foreign-gets, Foreign-asks, Foreign-pure, Foreign-call, Foreign-fail_if, Foreign-if,
  Foreign-bind,
)

pub ruleset atomic_rules =
    (IsAtomic-modify, IsAtomic-modify_last, IsAtomic-pure_last, IsAtomic-bind)
