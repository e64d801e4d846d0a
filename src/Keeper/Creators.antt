-- ===== src/Keeper/Creators.antt =====
-- keeper/creators.go: the index of the denoms of each creator.
pub mod Laws
use tokenfactory.Base.{List, map}
use tokenfactory.Base.Bytes.{Bytes}
use tokenfactory.Env.{Env}
use tokenfactory.Types.Keys.{creator_prefix, creators_prefix}
use tokenfactory.Keeper.Exec.{modify}
use tokenfactory.Keeper.State.{State, Action, prefix_set, prefix_iterate}

module _ (env : Env) where
  -- addDenomFromCreator
  unfoldable pub add_denom_from_creator : Bytes → Bytes → Action env (Unit {0})
  add_denom_from_creator creator denom =
      modify (prefix_set env (creator_prefix creator) denom denom)

  -- getDenomsFromCreator
  unfoldable pub get_denoms_from_creator : Bytes → State env → List Bytes
  get_denoms_from_creator creator s = map (λ e. e.0) (prefix_iterate env (creator_prefix creator) s)

  -- GetAllDenomsIterator, with all that it visits
  unfoldable pub get_all_denoms_iterator : State env → List (Bytes × Bytes)
  get_all_denoms_iterator s = prefix_iterate env creators_prefix s
