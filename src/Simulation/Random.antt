-- ===== src/Simulation/Random.antt =====
-- The source of randomness, and the choices that are made by it.
use tokenfactory.Base.{ℕ, zero, suc, ◌+◌, ◌<◌, ◌≤◌, ◌≡◌, List, [], ◌∷◌, length}
use tokenfactory.Base.Bytes.{Bytes}
use tokenfactory.Base.Outcome.{Outcome, ok, err, panic, index_out_of_range, max_too_small}
use tokenfactory.Env.{ℤ, unset, pos, negsuc}
use tokenfactory.Keeper.Exec.{Exec, lift, ◌>>=◌}

-- math/rand and what the SDK draws from it: each draw leaves another state of the source.
pub record Random : Type 1 where
  pub Rand : Type 0
  -- Rand.Intn, of a Go int
  pub intn : ℤ → Exec Rand ℕ
  -- big.Int.Rand, of a bound that is not negative
  pub big_rand : ℕ → Rand → ℕ × Rand
  -- simtypes.RandStringOfLength
  pub rand_string_of_length : ℕ → Exec Rand Bytes

-- Intn draws below its bound and panics on a bound that is not positive; big.Int.Rand draws below its
-- bound, and 0 below 0.
pub record RandomLaws (rnd : Random) : Type 0 where
  pub intn_below : (n : ℕ) (r r' : rnd.Rand) {k : ℕ} → rnd.intn (pos n) r ≡ (ok k, r') → k < n
  pub big_rand_below : (n : ℕ) (r : rnd.Rand) → (rnd.big_rand (suc n) r).0 ≤ n
  pub big_rand_zero : (r : rnd.Rand) → (rnd.big_rand 0 r).0 ≡ 0

-- `n - 1` and `n + 1` on Go ints that do not overflow
unfoldable pub minus_one : ℤ → ℤ
minus_one unset = unset
minus_one (pos zero) = negsuc 0
minus_one (pos (suc n)) = pos n
minus_one (negsuc n) = negsuc (suc n)

unfoldable pub plus_one : ℤ → ℤ
plus_one unset = unset
plus_one (pos n) = pos (suc n)
plus_one (negsuc zero) = pos 0
plus_one (negsuc (suc n)) = negsuc n

-- `args[choice]`
unfoldable pub element_at : {A : Type 0} → ℕ → List A → Outcome A
element_at n [] = panic index_out_of_range
element_at zero (x ∷ xs) = ok x
element_at (suc n) (x ∷ xs) = element_at n xs

module _ (rnd : Random) where
  -- randLTEBound
  unfoldable pub rand_lte_bound : ℤ → Exec rnd.Rand ℕ
  rand_lte_bound upperbound = rnd.intn (plus_one upperbound)

  -- randLTBound
  unfoldable pub rand_lt_bound : ℤ → Exec rnd.Rand ℕ
  rand_lt_bound upperbound = rand_lte_bound (minus_one upperbound)

  -- randSelect
  unfoldable pub rand_select : {A : Type 0} → List A → Exec rnd.Rand A
  unfolding rand_lt_bound rand_lte_bound
  rand_select args = do choice ← rand_lt_bound (pos (length args)); lift (element_at choice args)

  -- RandPositiveInt: `max.GTE` panics on the nil of an unset integer.
  unfoldable pub rand_positive_int : ℤ → Exec rnd.Rand ℤ
  rand_positive_int unset r = (panic max_too_small, r)
  rand_positive_int (negsuc n) r = (err max_too_small, r)
  rand_positive_int (pos zero) r = (err max_too_small, r)
  rand_positive_int (pos (suc n)) r = let (k, r') = rnd.big_rand n r in (ok (pos (k + 1)), r')
