-- ===== src/Keeper/Invariant.antt =====
-- The invariant of the module's state.
pub mod Writes
pub mod Calls
pub mod Handlers
pub mod Creation
pub mod AdminChange
pub mod Reach
pub mod Renounced
pub mod Owned
use tokenfactory.Base.{◌≡◌, ◌++◌, false, some}
use tokenfactory.Base.Bytes.{Bytes, contains}
use tokenfactory.Base.Outcome.{ok}
use tokenfactory.Env.{Env}
use tokenfactory.Types.Keys.{authority_key, creator_prefix}
use tokenfactory.Types.Keys.Separation.{bar}
use tokenfactory.Types.Authority.{DenomAuthorityMetadata, authority_validate}
use tokenfactory.Keeper.State.{State}
use tokenfactory.Keeper.Admins.{get_authority_metadata}

-- The bank knows each denom that has authority metadata; each denom of a creator's index stands under
-- its own name and has authority metadata; and every authority metadata decodes to a valid one.
pub record IsWellFormed (env : Env) (s : State env) : Type 0 where
  pub registered :
      (d b : Bytes)
      → env.kv_get s.store (authority_key d) ≡ some b
      → (m : env.Metadata) × (env.get_denom_metadata s.chain d ≡ some m)
  pub indexed :
      (c d v : Bytes)
      → contains bar c ≡ false
      → env.kv_get s.store (creator_prefix c ++ d) ≡ some v
      → (v ≡ d) × ((b : Bytes) × (env.kv_get s.store (authority_key d) ≡ some b))
  pub readable :
      (d : Bytes)
      → (m : DenomAuthorityMetadata) × (get_authority_metadata env d s ≡ ok m)
        × (authority_validate env m ≡ ok tt)
