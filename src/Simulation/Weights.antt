-- ===== src/Simulation/Weights.antt =====
-- WeightedOperations: the operations and how often each is drawn.
use tokenfactory.Base.{ℕ, ◌≡◌, List, [], ◌∷◌, Option, none, some}
use tokenfactory.Base.Bytes.{Bytes, text}
use tokenfactory.Env.{Env}
use tokenfactory.Keeper.State.{State}
use tokenfactory.Simulation.Accounts.{Simulator, Draw}
use tokenfactory.Simulation.Messages.{
  Operation, simulate_msg_create_denom, simulate_msg_mint_denom, simulate_msg_burn_denom,
}

abbrev pub op_weight_msg_create_denom : Bytes
op_weight_msg_create_denom = text "op_weight_msg_create_denom"

abbrev pub op_weight_msg_mint_denom : Bytes
op_weight_msg_mint_denom = text "op_weight_msg_mint_denom"

abbrev pub op_weight_msg_burn_denom : Bytes
op_weight_msg_burn_denom = text "op_weight_msg_burn_denom"

-- The local variables of WeightedOperations.
pub record Weights : Type 0 where
  pub create_denom : ℕ
  pub mint_denom : ℕ
  pub burn_denom : ℕ

-- simtypes.AppParams: GetOrGenerate writes the parameter of the key to its pointer, or runs its
-- function where there is none.
pub record AppParams : Type 0 where
  pub supplied : Bytes → Option ℕ
  pub get_or_generate : Bytes → (ℕ → Weights → Weights) → (Weights → Weights) → Weights → Weights

pub record AppParamsLaws (params : AppParams) : Type 0 where
  pub present :
      (key : Bytes) (write : ℕ → Weights → Weights) (make : Weights → Weights) (w : Weights) {v : ℕ}
      → params.supplied key ≡ some v
      → params.get_or_generate key write make w ≡ write v w
  pub absent :
      (key : Bytes) (write : ℕ → Weights → Weights) (make : Weights → Weights) (w : Weights)
      → params.supplied key ≡ none
      → params.get_or_generate key write make w ≡ make w

-- The three calls of GetOrGenerate. The third names the key and the variable of the second.
unfoldable pub weights : AppParams → ℕ → Weights
weights params default =
    let w0 : Weights = record { create_denom = 0; mint_denom = 0; burn_denom = 0 } in
    let w1 =
      params.get_or_generate op_weight_msg_create_denom (λ v w. record w { create_denom = v })
        (λ w. record w { create_denom = default }) w0 in
    let w2 =
      params.get_or_generate op_weight_msg_mint_denom (λ v w. record w { mint_denom = v })
        (λ w. record w { mint_denom = default }) w1 in
    params.get_or_generate op_weight_msg_mint_denom (λ v w. record w { mint_denom = v })
      (λ w. record w { burn_denom = default }) w2

module _ {env : Env} (sim : Simulator env) where
  -- WeightedOperations
  unfoldable pub weighted_operations :
      AppParams → List (ℕ × (State env → List sim.Account → Draw sim (Operation sim)))
  unfolding weights
  weighted_operations params =
      let w = weights params sim.default_weight_msg_send in
      (w.create_denom, simulate_msg_create_denom sim)
      ∷ ((w.mint_denom, simulate_msg_mint_denom sim)
          ∷ ((w.burn_denom, simulate_msg_burn_denom sim) ∷ []))
