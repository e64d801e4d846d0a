-- ===== src/Simulation/Drawn.antt =====
-- The weights that WeightedOperations comes to.
use tokenfactory.Base.{ℕ, ◌≡◌, refl, ap, ◌∙◌, Option, none, some, Option-cases, inl, inr}
use tokenfactory.Base.Bytes.{Bytes}
use tokenfactory.Simulation.Weights.{
  Weights, AppParams, AppParamsLaws, weights, op_weight_msg_create_denom, op_weight_msg_mint_denom,
}

-- The supplied weight, or the default.
unfoldable pub supplied_or : ℕ → Option ℕ → ℕ
supplied_or default none = default
supplied_or default (some v) = v

-- The default where nothing is supplied, and 0 elsewhere.
unfoldable pub only_default : ℕ → Option ℕ → ℕ
only_default default none = default
only_default default (some v) = 0

-- What GetOrGenerate leaves in the variable.
or_make : Option ℕ → (ℕ → Weights → Weights) → (Weights → Weights) → Weights → Weights
or_make none write make w = make w
or_make (some v) write make w = write v w

get_or_generate_lem :
    (params : AppParams) (laws : AppParamsLaws params) (key : Bytes) (write : ℕ → Weights → Weights)
    (make : Weights → Weights) (w : Weights)
    → params.get_or_generate key write make w ≡ or_make (params.supplied key) write make w
unfolding or_make
get_or_generate_lem params laws key write make w = elim (Option-cases (params.supplied key)) [
  | inl e ↦ laws.absent key write make w e ∙ rw e
  | inr (v, e) ↦ laws.present key write make w e ∙ rw e
]

all_cases :
    (default : ℕ) (c m : Option ℕ)
    → or_make m
        (λ v w. record w { mint_denom = v })
        (λ w. record w { burn_denom = default })
        (or_make m
          (λ v w. record w { mint_denom = v })
          (λ w. record w { mint_denom = default })
          (or_make c
            (λ v w. record w { create_denom = v })
            (λ w. record w { create_denom = default })
            (record { create_denom = 0; mint_denom = 0; burn_denom = 0 })))
      ≡ record {
        create_denom = supplied_or default c;
        mint_denom = supplied_or default m;
        burn_denom = only_default default m;
      }
unfolding or_make supplied_or only_default
all_cases default none none = refl
all_cases default none (some v) = refl
all_cases default (some v) none = refl
all_cases default (some v) (some u) = refl

-- The weights of the creation and of the mint are the supplied ones, or the default. That of the burn is
-- the default where no weight of the mint is supplied, and 0 where one is: what is supplied for the burn
-- itself never counts.
pub weights_lem :
    (params : AppParams) (laws : AppParamsLaws params) (default : ℕ)
    → weights params default ≡ record {
      create_denom = supplied_or default (params.supplied op_weight_msg_create_denom);
      mint_denom = supplied_or default (params.supplied op_weight_msg_mint_denom);
      burn_denom = only_default default (params.supplied op_weight_msg_mint_denom);
    }
unfolding weights
weights_lem params laws default =
    let put_create = λ (v : ℕ) (w : Weights). record w { create_denom = v } in
    let put_mint = λ (v : ℕ) (w : Weights). record w { mint_denom = v } in
    let put_burn = λ (v : ℕ) (w : Weights). record w { burn_denom = v } in
    let w0 : Weights = record { create_denom = 0; mint_denom = 0; burn_denom = 0 } in
    let get = λ (key : Bytes) (make : Weights → Weights) (w : Weights).
      params.get_or_generate key put_mint make w in
    let c = params.supplied op_weight_msg_create_denom in
    let m = params.supplied op_weight_msg_mint_denom in
    let w1 = or_make c put_create (put_create default) w0 in
    ap
      (λ w.
        get op_weight_msg_mint_denom (put_burn default)
          (get op_weight_msg_mint_denom (put_mint default) w))
      (get_or_generate_lem params laws op_weight_msg_create_denom put_create (put_create default)
        w0)
    ∙ ap (get op_weight_msg_mint_denom (put_burn default))
        (get_or_generate_lem params laws op_weight_msg_mint_denom put_mint (put_mint default) w1)
    ∙ get_or_generate_lem params laws op_weight_msg_mint_denom put_mint (put_burn default)
        (or_make m put_mint (put_mint default) w1)
    ∙ all_cases default c m
