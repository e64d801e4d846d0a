-- ===== src/Types/Denoms.antt =====
-- types/denoms.go: the denoms `factory/{creator}/{subdenom}`.
pub mod RoundTrip
pub mod Bars
use tokenfactory.Base.{ℕ, ◌+◌, List, [], ◌∷◌, ltb, length, not}
use tokenfactory.Base.Bytes.{Bytes, text, same, contains, split, join}
use tokenfactory.Base.Outcome.{
  Outcome, ok, err, subdenom_too_long, creator_too_long, invalid_creator, invalid_denom, ◌>>=◌,
  ◌>>◌, fail_if, wrap,
}
use tokenfactory.Env.{Env}

abbrev pub module_denom_prefix : Bytes
module_denom_prefix = text "factory"

abbrev pub max_subdenom_length : ℕ
max_subdenom_length = 44

abbrev pub max_hrp_length : ℕ
max_hrp_length = 16

abbrev pub max_creator_length : ℕ
max_creator_length = 59 + max_hrp_length

-- "/"
abbrev pub slash : ℕ
slash = b'/'

-- The denom that `GetTokenDenom` builds before it validates it.
unfoldable pub token_denom : Bytes → Bytes → Bytes
token_denom creator subdenom = join (slash ∷ []) (module_denom_prefix ∷ (creator ∷ (subdenom ∷ [])))

module _ (env : Env) where
  -- GetTokenDenom. The source returns the denom beside the error of ValidateDenom; no caller reads
  -- it then.
  unfoldable pub get_token_denom : Bytes → Bytes → Outcome Bytes
  get_token_denom creator subdenom = do
    fail_if (ltb max_subdenom_length (length subdenom)) subdenom_too_long
    fail_if (ltb max_creator_length (length creator)) creator_too_long
    fail_if (contains slash creator) invalid_creator
    env.validate_denom (token_denom creator subdenom)
    ok (token_denom creator subdenom)

  -- What `DeconstructDenom` does with the parts of the split: at least three, `factory` first, an
  -- address next.
  unfoldable pub deconstruct_parts : List Bytes → Outcome (Bytes × Bytes)
  deconstruct_parts [] = err invalid_denom
  deconstruct_parts (p ∷ []) = err invalid_denom
  deconstruct_parts (p ∷ (c ∷ [])) = err invalid_denom
  deconstruct_parts (p ∷ (c ∷ (s ∷ rest))) = do
    fail_if (not (same p module_denom_prefix)) invalid_denom
    creator_addr ← wrap invalid_denom (env.address_from_bech32 c)
    ok (env.address_string creator_addr, join (slash ∷ []) (s ∷ rest))

  -- DeconstructDenom
  unfoldable pub deconstruct_denom : Bytes → Outcome (Bytes × Bytes)
  unfolding deconstruct_parts
  deconstruct_denom denom = env.validate_denom denom >> deconstruct_parts (split slash denom)
