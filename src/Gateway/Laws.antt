-- ===== src/Gateway/Laws.antt =====
-- What the gateway relies on, of the grpc-gateway runtime and of its mux.
use tokenfactory.Base.{
  ℕ, ◌≡◌, List, [], ◌∷◌, Bool, true, false, not, ◌==◌, ◌&&◌, ◌||◌, Option, some,
}
use tokenfactory.Base.Bytes.{Bytes, contains}
use tokenfactory.Base.Outcome.{ok}
use tokenfactory.Types.Denoms.{slash}
use tokenfactory.Gateway.Runtime.{Runtime, Pattern, path_param}

-- runtime.String gives its argument back, and joining no metadata adds nothing.
pub record RuntimeLaws (rt : Runtime) : Type 0 where
  pub string_same : (v : Bytes) → rt.string v ≡ ok v
  pub join_none : (md : rt.Metadata) → rt.join rt.no_metadata md ≡ md

-- runtime.ServeMux, which hands the parameters that a pattern captures in a path to the handler of the
-- pattern.
pub record Mux : Type 0 where
  pub match_path : Pattern → Bytes → Option (List (Bytes × Bytes))

-- The operations of a pattern, which stand in pairs, capture single segments alone: none is OpPushM, 3,
-- and OpConcatN, 4, is of one segment.
unfoldable pub single_segments : List ℕ → Bool
single_segments [] = true
single_segments (op ∷ []) = true
single_segments (op ∷ (n ∷ rest)) =
    not (op == 3 || (op == 4 && not (n == 1))) && single_segments rest

-- The segments of a path are what stands between its slashes.
pub record MuxLaws (mux : Mux) : Type 0 where
  pub captured :
      (p : Pattern) (path : Bytes) {params : List (Bytes × Bytes)}
      → single_segments p.ops ≡ true
      → mux.match_path p path ≡ some params
      → (name : Bytes) {v : Bytes} → path_param name params ≡ some v
      → contains slash v ≡ false
