-- ===== src/Base/Outcome.antt =====
-- What a Go call comes to: a value, a returned error, or a panic.
use mathlib.Core.Path.{◌≡◌, refl}
use mathlib.Core.Logic.{◌⊎◌, inl, inr}
use mathlib.Core.Bool.{Bool, true, false}
use Prim.Native.Nat.{ℕ}

-- The sentinel errors of types/errors.go, the errors that this module makes by `fmt.Errorf` or
-- takes from the SDK's registry, and those of the generated codec. `external` is an error value of
-- code that is not part of the repository. The text that wraps an error is not kept.
pub data Error : Type 0 where
  denom_exists unauthorized invalid_denom invalid_creator invalid_authority_metadata : Error
  invalid_genesis subdenom_too_long creator_too_long denom_does_not_exist : Error
  burn_from_module_account track_before_send_out_of_gas : Error
  invalid_address invalid_coins native_subdenom invalid_parameter_type invalid_creation_fee : Error
  int_overflow unexpected_eof invalid_length wrong_wire_type illegal_tag end_group : Error
  unexpected_end_of_group illegal_wire_type : Error
  index_out_of_range invalid_argument invalid_json no_min_balance no_creator no_admin_address :
      Error
  no_balance same_admin max_too_small : Error
  -- no Go value: a loop of the model has used up its fuel
  out_of_fuel : Error
  external : ℕ → Error

pub data Outcome {ℓ} (A : Type ℓ) : Type ℓ where
  ok : A → Outcome A
  err panic : Error → Outcome A

-- What follows is run on the value alone.
infixl 5 ◌>>=◌ ◌>>◌
abbrev pub ◌>>=◌ {ℓ κ} : {A : Type ℓ} {B : Type κ} → Outcome A → (A → Outcome B) → Outcome B
panic why >>= next = panic why
err why >>= next = err why
ok value >>= next = next value

abbrev pub ◌>>◌ {ℓ κ} : {A : Type ℓ} {B : Type κ} → Outcome A → Outcome B → Outcome B
first >> second = first >>= λ _. second

-- `if fails { return e }`
abbrev pub fail_if : Bool → Error → Outcome (Unit {0})
fail_if true e = err e
fail_if false e = ok tt

-- `errorsmod.Wrap(e, …)` around a returned error.
abbrev pub wrap {ℓ} : {A : Type ℓ} → Error → Outcome A → Outcome A
wrap e (ok a) = ok a
wrap e (err _) = err e
wrap e (panic x) = panic x

-- `if err != nil { panic(err) }`
abbrev pub or_panic {ℓ} : {A : Type ℓ} → Outcome A → Outcome A
or_panic (ok a) = ok a
or_panic (err e) = panic e
or_panic (panic e) = panic e

-- The call came back with an error.
abbrev pub IsErr {ℓ} : {A : Type ℓ} → Outcome A → Type ℓ
IsErr {A} m = (e : Error) × (m ≡ err e)

module _ {ℓ κ} {A : Type ℓ} {B : Type κ} where
  -- A chain that returns has a first step that returned.
  pub >>=-eq-ok :
      (call : Outcome A) (next : A → Outcome B) {value : B}
      → (call >>= next) ≡ ok value
      → (a : A) × (call ≡ ok a) × (next a ≡ ok value)
  >>=-eq-ok (panic why) next h = cc
  >>=-eq-ok (err why) next h = cc
  >>=-eq-ok (ok a) next h = (a, refl, h)

pub wrap-eq-ok {ℓ} : {A : Type ℓ} (e : Error) (m : Outcome A) {a : A} → wrap e m ≡ ok a → m ≡ ok a
wrap-eq-ok e (ok b) h = h
wrap-eq-ok e (err x) h = cc
wrap-eq-ok e (panic x) h = cc

pub fail_if-eq-ok : (b : Bool) (e : Error) {u : Unit {0}} → fail_if b e ≡ ok u → b ≡ false
fail_if-eq-ok true e h = cc
fail_if-eq-ok false e h = refl

pub ok-injective {ℓ} : {A : Type ℓ} {a b : A} → ok a ≡ ok b → a ≡ b
ok-injective h = cc

pub Outcome-cases {ℓ} :
    {A : Type ℓ} (m : Outcome A)
    → ((a : A) × (m ≡ ok a)) ⊎ (((e : Error) × (m ≡ err e)) ⊎ ((e : Error) × (m ≡ panic e)))
Outcome-cases (ok a) = inl (a, refl)
Outcome-cases (err e) = inr (inl (e, refl))
Outcome-cases (panic e) = inr (inr (e, refl))
