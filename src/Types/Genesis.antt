-- ===== src/Types/Genesis.antt =====
-- types/genesis.go: the genesis state, its default and its validation.
use tokenfactory.Base.{List, [], ◌∷◌, Bool, false, ◌||◌, if◌then◌else◌}
use tokenfactory.Base.Bytes.{Bytes, same}
use tokenfactory.Base.Outcome.{
  Outcome, ok, invalid_genesis, invalid_authority_metadata, ◌>>=◌, ◌>>◌, fail_if, wrap,
}
use tokenfactory.Env.{Env}
use tokenfactory.Types.Denoms.{deconstruct_denom}
use tokenfactory.Types.Params.{Params, default_params, params_validate}
use tokenfactory.Types.Authority.{DenomAuthorityMetadata}

pub record GenesisDenom : Type 0 where
  pub denom : Bytes
  pub authority_metadata : DenomAuthorityMetadata

pub record GenesisState : Type 0 where
  pub params : Params
  pub factory_denoms : List GenesisDenom

-- `seenDenoms[d]`: the map holds the denoms that the loop has met.
unfoldable pub seen : Bytes → List Bytes → Bool
seen d [] = false
seen d (x ∷ xs) = same d x || seen d xs

module _ (env : Env) where
  -- DefaultGenesis
  unfoldable pub default_genesis : Outcome GenesisState
  default_genesis = do
    params ← default_params env
    ok (record { params = params; factory_denoms = [] })

  -- One round of the loop of `Validate`, past the test on the map.
  unfoldable pub genesis_denom_validate : GenesisDenom → Outcome (Unit {0})
  genesis_denom_validate g = do
    deconstruct_denom env g.denom
    if same g.authority_metadata.admin []
        then ok tt
        else wrap invalid_authority_metadata (env.address_from_bech32 g.authority_metadata.admin)
          >> ok tt

  -- The loop of `Validate`.
  unfoldable pub genesis_denoms_validate : List Bytes → List GenesisDenom → Outcome (Unit {0})
  unfolding seen genesis_denom_validate
  genesis_denoms_validate met [] = ok tt
  genesis_denoms_validate met (g ∷ gs) =
      let rest = genesis_denoms_validate (g.denom ∷ met) gs in
      fail_if (seen g.denom met) invalid_genesis >> genesis_denom_validate g >> rest

  -- GenesisState.Validate
  unfoldable pub genesis_validate : GenesisState → Outcome (Unit {0})
  unfolding genesis_denoms_validate
  genesis_validate gs =
      params_validate env gs.params >> genesis_denoms_validate [] gs.factory_denoms
