-- ===== src/Keeper/State/Supply.antt =====
-- Calls that leave the supply of coins as it is, one rule for each way to build a call.
use tokenfactory.Base.{◌≡◌, refl, sym, ap, ◌∙◌, true, false, Bool, if◌then◌else◌}
use tokenfactory.Base.Bytes.{Bytes}
use tokenfactory.Base.Outcome.{Outcome, Error, ok}
use tokenfactory.Env.{Env, Effect}
use tokenfactory.Env.Ledger.{Ledger}
use tokenfactory.Keeper.Exec.{pure, lift, gets, asks, modify, fail_if, ◌>>=◌}
use tokenfactory.Keeper.Exec.Laws.{>>=-eq-ok}
use tokenfactory.Keeper.State.{State, Action, call}

module _ (env : Env) (ledger : Ledger env) where
  open ledger use {supply}

  -- The supply of every denom is the same in both states.
  abbrev pub SameSupply : State env → State env → Type 0
  SameSupply s t = (d : Bytes) → supply t.chain d ≡ supply s.chain d

  -- A call that returns has left all supplies as they were.
  pub record KeepsSupply {A : Type 0} (m : Action env A) : Type 0 where
    pub at : (s : State env) {a : A} {t : State env} → m s ≡ (ok a, t) → SameSupply s t

  module _ {A : Type 0} where
    pub KeepsSupply-result :
        (m : Action env A) → ((s : State env) → SameSupply s (m s).1) → KeepsSupply m
    KeepsSupply-result m h = record { at = λ s e d. ap (λ r. supply r.1.chain d) (sym e) ∙ h s d }

    pub KeepsSupply-lift : (r : Outcome A) → KeepsSupply (lift r)
    KeepsSupply-lift r = KeepsSupply-result (lift r) (λ s d. refl)

    pub KeepsSupply-gets : (f : State env → A) → KeepsSupply (gets f)
    KeepsSupply-gets f = KeepsSupply-result (gets f) (λ s d. refl)

    pub KeepsSupply-asks : (f : State env → Outcome A) → KeepsSupply (asks f)
    KeepsSupply-asks f = KeepsSupply-result (asks f) (λ s d. refl)

    pub KeepsSupply-pure : (a : A) → KeepsSupply (pure a)
    KeepsSupply-pure a = KeepsSupply-result (pure a) (λ s d. refl)

    pub KeepsSupply-if :
        (b : Bool) (m n : Action env A)
        → KeepsSupply m
        → KeepsSupply n
        → KeepsSupply (if b then m else n)
    KeepsSupply-if true m n hm hn = hm
    KeepsSupply-if false m n hm hn = hn

  pub KeepsSupply-call :
      (f : Effect env.Chain (Unit {0}))
      → ((c : env.Chain) (d : Bytes) → (f c).0 ≡ ok tt → supply (f c).1 d ≡ supply c d)
      → KeepsSupply (call env f)
  KeepsSupply-call f h = record {
    at = λ s e d. ap (λ r. supply r.1.chain d) (sym e) ∙ h s.chain d (ap (λ r. r.0) e);
  }

  pub KeepsSupply-fail_if : (b : Bool) (e : Error) → KeepsSupply (fail_if b e)
  KeepsSupply-fail_if b e = KeepsSupply-result (fail_if b e) (λ s d. refl)

  pub KeepsSupply-modify :
      (f : State env → State env) → ((s : State env) → SameSupply s (f s)) → KeepsSupply (modify f)
  KeepsSupply-modify f h = KeepsSupply-result (modify f) h

  pub KeepsSupply-bind :
      {A B : Type 0} (m : Action env A) (f : A → Action env B)
      → KeepsSupply m
      → ((a : A) → KeepsSupply (f a))
      → KeepsSupply (m >>= f)
  KeepsSupply-bind m f hm hf = record {
    at = λ s e d. let (a, s', h, k) = >>=-eq-ok m f s e in (hf a).at s' k d ∙ hm.at s h d;
  }

pub ruleset supply_rules = (
  KeepsSupply-lift, KeepsSupply-gets, KeepsSupply-asks, KeepsSupply-pure, KeepsSupply-fail_if,
  KeepsSupply-if, KeepsSupply-bind,
)
