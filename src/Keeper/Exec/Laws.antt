-- ===== src/Keeper/Exec/Laws.antt =====
-- Calls taken apart by how they ended, and calls that write only part of the state.
use tokenfactory.Base.{◌≡◌, refl, ap}
use tokenfactory.Base.Outcome.{Outcome, Error, ok, err, panic}
use tokenfactory.Keeper.Exec.{Exec, after, ◌>>=◌}

-- The call came back without a value.
abbrev pub Fails : {A : Type 0} → Outcome A → Type 0
Fails (ok a) = ⊥
Fails (err e) = Unit
Fails (panic e) = Unit

module _ {S A B : Type 0} where
  -- A sequence that returns has a first call that returned.
  pub >>=-eq-ok :
      (m : Exec S A) (f : A → Exec S B) (s : S) {b : B} {t : S}
      → (m >>= f) s ≡ (ok b, t)
      → (a : A) × (s' : S) × (m s ≡ (ok a, s')) × (f a s' ≡ (ok b, t))
  >>=-eq-ok m f s {b} {t} h = go (m s) refl h
    where
      go :
          (r : Outcome A × S)
          → m s ≡ r
          → after f r ≡ (ok b, t)
          → (a : A) × (s' : S) × (m s ≡ (ok a, s')) × (f a s' ≡ (ok b, t))
      go (ok a, s') e k = (a, s', e, k)
      go (err x, s') e k = cc
      go (panic x, s') e k = cc

  pub >>=-ok :
      (m : Exec S A) (f : A → Exec S B) (s : S) {a : A} {s' : S}
      → m s ≡ (ok a, s')
      → (m >>= f) s ≡ f a s'
  >>=-ok m f s h = ap (after f) h

  pub >>=-err :
      (m : Exec S A) (f : A → Exec S B) (s : S) {e : Error} {s' : S}
      → m s ≡ (err e, s')
      → (m >>= f) s ≡ (err e, s')
  >>=-err m f s h = ap (after f) h

-- What a call does to the state whatever its outcome, and what it does when it fails: `R` holds of
-- the state that it finds and the state that it leaves.
module _ {S : Type 0} (R : S → S → Type 0) where
  pub record Does {A : Type 0} (m : Exec S A) : Type 0 where
    pub at : (s : S) → R s (m s).1

  pub record DoesOnFailure {A : Type 0} (m : Exec S A) : Type 0 where
    pub at : (s : S) → Fails (m s).0 → R s (m s).1

module _ {S : Type 0} {R : S → S → Type 0} (both : (s t u : S) → R s t → R t u → R s u) where
  module _ {A B : Type 0} where
    pub Does-bind :
        (m : Exec S A) (f : A → Exec S B) → Does R m → ((a : A) → Does R (f a)) → Does R (m >>= f)
    Does-bind m f dm df = record { at = λ s. go s (m s) (dm.at s) }
      where
        go : (s : S) (r : Outcome A × S) → R s r.1 → R s (after f r).1
        go s (ok a, s') h = both s s' _ h ((df a).at s')
        go s (err e, s') h = h
        go s (panic e, s') h = h

    -- Nothing else is done if the first call fails, and the failure of the second undoes nothing.
    pub DoesOnFailure-bind :
        (m : Exec S A) (f : A → Exec S B)
        → Does R m
        → ((a : A) → DoesOnFailure R (f a))
        → DoesOnFailure R (m >>= f)
    DoesOnFailure-bind m f dm df = record { at = λ s. go s (m s) (dm.at s) }
      where
        go : (s : S) (r : Outcome A × S) → R s r.1 → Fails (after f r).0 → R s (after f r).1
        go s (ok a, s') h k = both s s' _ h ((df a).at s' k)
        go s (err e, s') h k = h
        go s (panic e, s') h k = h

    -- A call that cannot fail may follow.
    pub DoesOnFailure-then :
        (m : Exec S A) (f : A → Exec S B)
        → DoesOnFailure R m
        → ((a : A) (s : S) → ¬ Fails (f a s).0)
        → DoesOnFailure R (m >>= f)
    DoesOnFailure-then m f dm sure = record { at = λ s. go s (m s) (dm.at s) }
      where
        go :
            (s : S) (r : Outcome A × S)
            → (Fails r.0 → R s r.1)
            → Fails (after f r).0
            → R s (after f r).1
        go s (ok a, s') h k = absurd (sure a s' k)
        go s (err e, s') h k = h tt
        go s (panic e, s') h k = h tt
