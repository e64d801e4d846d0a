-- ===== src/Keeper/MsgServer/Refuses.antt =====
-- Calls that fail and change nothing, one rule for each way to build a call.
use tokenfactory.Base.{◌≡◌, refl, Bool, true, false, not}
use tokenfactory.Base.Outcome.{Outcome, Error, ok, err, panic}
use tokenfactory.Keeper.Exec.{Exec, after, lift, asks, gets, fail_if, ◌>>=◌, ◌>>◌}
use tokenfactory.Keeper.Exec.Laws.{Fails}

pub not-eq-false : (b : Bool) → not b ≡ false → b ≡ true
not-eq-false true h = refl
not-eq-false false h = cc

-- The call fails and has changed nothing.
pub record Refuses {S A : Type 0} (m : Exec S A) (s : S) : Type 0 where
  pub failed : Fails (m s).0
  pub unchanged : (m s).1 ≡ s

module _ {S A B : Type 0} (m : Exec S A) (f : A → Exec S B) (s : S) where
  pub Refuses-bind : Refuses m s → Refuses (m >>= f) s
  Refuses-bind h =
      let (failed, unchanged) = go (m s) h.failed h.unchanged in
      record { failed = failed; unchanged = unchanged }
    where
      go : (r : Outcome A × S) → Fails r.0 → r.1 ≡ s → Fails (after f r).0 × ((after f r).1 ≡ s)
      go (ok a, t) h e = absurd h
      go (err x, t) h e = (tt, e)
      go (panic x, t) h e = (tt, e)

module _ {S A B : Type 0} (s : S) where
  -- Behind a step that writes nothing.
  pub Refuses-lift :
      (r : Outcome A) (f : A → Exec S B) → ((a : A) → Refuses (f a) s) → Refuses (lift r >>= f) s
  Refuses-lift (ok a) f h = record { failed = (h a).failed; unchanged = (h a).unchanged }
  Refuses-lift (err e) f h = record { failed = tt; unchanged = refl }
  Refuses-lift (panic e) f h = record { failed = tt; unchanged = refl }

  pub Refuses-gets : (g : S → A) (f : A → Exec S B) → Refuses (f (g s)) s → Refuses (gets g >>= f) s
  Refuses-gets g f h = record { failed = h.failed; unchanged = h.unchanged }

pub Refuses-fail_if :
    {S B : Type 0} (s : S) (b : Bool) (e : Error) (k : Exec S B)
    → Refuses k s
    → Refuses (fail_if b e >> k) s
Refuses-fail_if s true e k h = record { failed = tt; unchanged = refl }
Refuses-fail_if s false e k h = record { failed = h.failed; unchanged = h.unchanged }

module _ {S A B : Type 0} (s : S) where
  pub Refuses-asks :
      (g : S → Outcome A) (f : A → Exec S B)
      → ((a : A) → g s ≡ ok a → Refuses (f a) s)
      → Refuses (asks g >>= f) s
  Refuses-asks g f h = go (g s) refl
    where
      go : (r : Outcome A) → g s ≡ r → Refuses (asks g >>= f) s
      go (ok a) e = record {
        failed = rw (e, after) (h a e).failed;
        unchanged = rw (e, after) (h a e).unchanged;
      }
      go (err x) e = record { failed = rw (e, after) tt; unchanged = rw (e, after) }
      go (panic x) e = record { failed = rw (e, after) tt; unchanged = rw (e, after) }

pub Refuses-same :
    {S : Type 0} (s : S) (b : Bool) (e : Error) → b ≡ false → Refuses (fail_if (not b) e) s
Refuses-same s true e h = cc
Refuses-same s false e h = record { failed = tt; unchanged = refl }
