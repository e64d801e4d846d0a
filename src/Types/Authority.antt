-- ===== src/Types/Authority.antt =====
-- types/authorityMetadata.go: who may act on a denom.
use tokenfactory.Base.{[], if◌then◌else◌}
use tokenfactory.Base.Bytes.{Bytes, same}
use tokenfactory.Base.Outcome.{Outcome, ok, ◌>>◌}
use tokenfactory.Env.{Env}

-- DenomAuthorityMetadata; the empty admin is no admin.
pub record DenomAuthorityMetadata : Type 0 where
  pub admin : Bytes

abbrev pub no_admin : DenomAuthorityMetadata
no_admin = record { admin = [] }

-- `if s != "" { _, err := sdk.AccAddressFromBech32(s); … }`
module _ (env : Env) where
  -- DenomAuthorityMetadata.Validate
  unfoldable pub authority_validate : DenomAuthorityMetadata → Outcome (Unit {0})
  authority_validate m =
      if same m.admin [] then ok tt else (env.address_from_bech32 m.admin >> ok tt)
