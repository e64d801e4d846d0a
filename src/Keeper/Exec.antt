-- ===== src/Keeper/Exec.antt =====
-- A call that works on a state and may fail. What it has written before it fails stays written; to
-- undo that is the business of the caller's caller, which runs a message on a branch of the store.
pub mod Laws
use tokenfactory.Base.{◌≡◌, refl, Bool, true, false, if◌then◌else◌}
use tokenfactory.Base.Outcome
use tokenfactory.Base.Outcome.{Outcome, Error, ok, err, panic}

abbrev pub Exec : Type 0 → Type 0 → Type 0
Exec S A = S → Outcome A × S

module _ {S A : Type 0} where
  abbrev pub pure : A → Exec S A
  pure a s = (ok a, s)

  -- An outcome that does not depend on the state.
  abbrev pub lift : Outcome A → Exec S A
  lift r s = (r, s)

  abbrev pub gets : (S → A) → Exec S A
  gets f s = (ok (f s), s)

  -- A read that may fail.
  abbrev pub asks : (S → Outcome A) → Exec S A
  asks f s = (f s, s)

  -- `if err != nil { panic(err) }` behind a call.
  abbrev pub panic_on_error : Exec S A → Exec S A
  panic_on_error m s = let (r, s') = m s in (Outcome.or_panic r, s')

-- What follows a call, by how that has ended.
abbrev pub after : {S A B : Type 0} → (A → Exec S B) → Outcome A × S → Outcome B × S
after f (ok a, s) = f a s
after f (err e, s) = (err e, s)
after f (panic e, s) = (panic e, s)

infixl 5 ◌>>=◌ ◌>>◌
abbrev pub ◌>>=◌ : {S A B : Type 0} → Exec S A → (A → Exec S B) → Exec S B
◌>>=◌ m f s = after f (m s)

abbrev pub ◌>>◌ : {S A B : Type 0} → Exec S A → Exec S B → Exec S B
m >> k = m >>= λ _. k

abbrev pub modify : {S : Type 0} → (S → S) → Exec S (Unit {0})
modify f s = (ok tt, f s)

-- `if fails { return e }`
abbrev pub fail_if : {S : Type 0} → Bool → Error → Exec S (Unit {0})
fail_if b e s = (Outcome.fail_if b e, s)
