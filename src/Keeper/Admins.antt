-- ===== src/Keeper/Admins.antt =====
-- keeper/admins.go: the authority metadata of each denom.
pub mod Laws
use tokenfactory.Base.{[], Option, none, some}
use tokenfactory.Base.Bytes.{Bytes}
use tokenfactory.Base.Outcome.{Outcome}
use tokenfactory.Env.{Env}
use tokenfactory.Types.Keys.{denom_prefix_store, denom_authority_metadata_key}
use tokenfactory.Types.Authority.{DenomAuthorityMetadata, authority_validate}
use tokenfactory.Codec.Authority.{marshal, unmarshal}
use tokenfactory.Keeper.Exec.{lift, asks, modify, ◌>>=◌, ◌>>◌}
use tokenfactory.Keeper.State.{State, Action, prefix_get, prefix_set}

-- The bytes of a value that is absent are nil, and decode like the empty slice.
abbrev pub or_nil : Option Bytes → Bytes
or_nil none = []
or_nil (some b) = b

module _ (env : Env) where
  -- GetAuthorityMetadata
  unfoldable pub get_authority_metadata : Bytes → State env → Outcome DenomAuthorityMetadata
  get_authority_metadata denom s =
      unmarshal (or_nil (prefix_get env (denom_prefix_store denom) denom_authority_metadata_key s))

  -- setAuthorityMetadata
  unfoldable pub set_authority_metadata : Bytes → DenomAuthorityMetadata → Action env (Unit {0})
  set_authority_metadata denom metadata = do
    lift (authority_validate env metadata)
    modify
        (prefix_set env (denom_prefix_store denom) denom_authority_metadata_key (marshal metadata))

  -- setAdmin
  unfoldable pub set_admin : Bytes → Bytes → Action env (Unit {0})
  set_admin denom admin = do
    metadata ← asks (get_authority_metadata denom)
    set_authority_metadata denom (record metadata { admin = admin })
