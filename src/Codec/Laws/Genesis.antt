-- ===== src/Codec/Laws/Genesis.antt =====
-- The parameters and the genesis state survive their encoding.
use mathlib.Core.List.{append-nil, append_assoc}
use tokenfactory.Base.{
  ◌^◌, ◌<◌, ◌≡◌, refl, sym, ◌∙◌, List, [], ◌∷◌, ◌++◌, none, some, arith, length, All, ℕ,
}
use tokenfactory.Base.Bytes.{Bytes}
use tokenfactory.Base.Outcome.{Outcome, ok, ok-injective, ◌>>=◌, >>=-eq-ok}
use tokenfactory.Env.{Env, Coin, Coins}
use tokenfactory.Types.Authority.{DenomAuthorityMetadata, no_admin}
use tokenfactory.Types.Params.{Params}
use tokenfactory.Types.Genesis.{GenesisDenom, GenesisState}
use tokenfactory.Codec.Authority
use tokenfactory.Codec.Wire.{Wire, WireLaws, IsSmall, no_coin}
use tokenfactory.Codec.Fields.{repeated_field}
use tokenfactory.Codec.Genesis.{
  coin_list, append, authority_unmarshal, marshal_genesis_denom, genesis_denom_cases,
  unmarshal_genesis_denom, marshal_params, params_cases, no_params, params_unmarshal,
  marshal_genesis_state, genesis_state_cases, unmarshal_genesis_state,
}
use tokenfactory.Codec.Laws.RoundTrip.{unmarshal-marshal}
use tokenfactory.Codec.Laws.Decoding.{
  Decodes-nil, Decodes-string, Decodes-uint64, Decodes-message, Decodes-repeated, add_all,
  ReadsBack, unmarshal_into-Decodes,
}

pub authority_unmarshal-marshal :
    (m : DenomAuthorityMetadata)
    → length (Authority.marshal m) < 2 ^ 63
    → authority_unmarshal no_admin (Authority.marshal m) ≡ ok m
unfolding authority_unmarshal Authority.unmarshal
authority_unmarshal-marshal m fits = unmarshal-marshal m fits

pub unmarshal_genesis_denom-marshal_genesis_denom :
    (m : GenesisDenom) (bytes : Bytes)
    → marshal_genesis_denom m ≡ ok bytes
    → length bytes < 2 ^ 63
    → unmarshal_genesis_denom bytes ≡ ok m
unfolding marshal_genesis_denom unmarshal_genesis_denom
unmarshal_genesis_denom-marshal_genesis_denom m bytes written fits =
    let shape = sym (ok-injective written) in
    let fits' = rw shape at fits in
    rw shape (
      unmarshal_into-Decodes genesis_denom_cases _ m _ (
        Decodes-string genesis_denom_cases _ fits' 0 _ m.denom _ _ m refl (omega arith) refl (
          Decodes-message genesis_denom_cases _ fits' 1 _ (Authority.marshal m.authority_metadata) _
            _ _ m refl (omega arith)
            (λ h. rw (authority_unmarshal-marshal m.authority_metadata (omega arith)))
            (Decodes-nil genesis_denom_cases _ m))))

-- A fee that survives: its amounts do, and it is not the empty slice, which comes back as nil.
abbrev pub FeeSurvives : Coins → Type 0
FeeSurvives none = Unit
FeeSurvives (some []) = ⊥
FeeSurvives (some (c ∷ cs)) = All (λ d. IsSmall d.amount) (c ∷ cs)

module _ (env : Env) (wire : Wire env) (laws : WireLaws env wire) where
  abbrev read_coin : Params → Bytes → Outcome Params
  read_coin m b = do
    c ← wire.coin_unmarshal no_coin b
    ok (record m { denom_creation_fee = some (append (coin_list m.denom_creation_fee) c) })

  abbrev add_coin : Params → Coin → Params
  add_coin m c = record m { denom_creation_fee = some (append (coin_list m.denom_creation_fee) c) }

  abbrev add_coins : Params → List Coin → Params
  add_coins = add_all add_coin

  coins-ReadsBack :
      (l : ℕ) (cs : List Coin)
      → All (λ c. IsSmall c.amount) cs
      → ReadsBack l wire.coin_marshal read_coin add_coin cs
  coins-ReadsBack l [] h = tt
  coins-ReadsBack l (c ∷ cs) (small, rest) =
      ((λ m b written short. rw (laws.coin_read c b small written)), coins-ReadsBack l cs rest)

  add_coins-some :
      (cs xs : List Coin) (gas : ℕ)
      → add_coins (record { denom_creation_fee = some xs; denom_creation_gas_consume = gas }) cs
        ≡ record { denom_creation_fee = some (xs ++ cs); denom_creation_gas_consume = gas }
  add_coins-some [] xs gas = simp (append-nil)
  add_coins-some (c ∷ cs) xs gas = add_coins-some cs (append xs c) gas ∙ simp (append_assoc)

  add_coins-no_params :
      (fee : Coins)
      → FeeSurvives fee
      → add_coins no_params (coin_list fee)
        ≡ record { denom_creation_fee = fee; denom_creation_gas_consume = 0 }
  add_coins-no_params none h = refl
  add_coins-no_params (some []) h = absurd h
  add_coins-no_params (some (c ∷ cs)) h = add_coins-some cs (c ∷ []) 0

  coin_list-IsSmall : (fee : Coins) → FeeSurvives fee → All (λ c. IsSmall c.amount) (coin_list fee)
  coin_list-IsSmall none h = tt
  coin_list-IsSmall (some []) h = tt
  coin_list-IsSmall (some (c ∷ cs)) h = h

  pub params_unmarshal-marshal_params :
      (m : Params) (bytes : Bytes)
      → FeeSurvives m.denom_creation_fee
      → m.denom_creation_gas_consume < 2 ^ 64
      → marshal_params env wire m ≡ ok bytes
      → length bytes < 2 ^ 63
      → params_unmarshal env wire no_params bytes ≡ ok m
  unfolding marshal_params params_unmarshal
  params_unmarshal-marshal_params m bytes kept gas written fits =
      let (fee, ef, e) = >>=-eq-ok (repeated_field 1 wire.coin_marshal _) _ written in
      let shape = sym (ok-injective e) in
      let fits' = rw shape at fits in
      rw shape (
        unmarshal_into-Decodes (params_cases env wire) _ m _ (
          Decodes-repeated (params_cases env wire) _ fits' 0 wire.coin_marshal read_coin add_coin
            (coin_list m.denom_creation_fee) fee _ no_params m refl (omega arith)
            (coins-ReadsBack _ _ (coin_list-IsSmall m.denom_creation_fee kept)) ef
            (rw (add_coins-no_params m.denom_creation_fee kept) (
              Decodes-uint64 (params_cases env wire) _ fits' 1 _ m.denom_creation_gas_consume _ _ m
                refl (omega arith) gas refl (Decodes-nil (params_cases env wire) _ m)))))

  abbrev read_denom : GenesisState → Bytes → Outcome GenesisState
  read_denom m b = do
    d ← unmarshal_genesis_denom b
    ok (record m { factory_denoms = append m.factory_denoms d })

  abbrev add_denom : GenesisState → GenesisDenom → GenesisState
  add_denom m d = record m { factory_denoms = append m.factory_denoms d }

  denoms-ReadsBack :
      (l : ℕ) (ds : List GenesisDenom)
      → l < 2 ^ 63
      → ReadsBack l marshal_genesis_denom read_denom add_denom ds
  denoms-ReadsBack l [] fits = tt
  denoms-ReadsBack l (d ∷ ds) fits = (
    (λ m b written short.
        rw (unmarshal_genesis_denom-marshal_genesis_denom d b written (omega arith))),
    denoms-ReadsBack l ds fits,
  )

  add_denoms-append :
      (ds xs : List GenesisDenom) (p : Params)
      → add_all add_denom (record { params = p; factory_denoms = xs }) ds
        ≡ record { params = p; factory_denoms = xs ++ ds }
  add_denoms-append [] xs p = simp (append-nil)
  add_denoms-append (d ∷ ds) xs p = add_denoms-append ds (append xs d) p ∙ simp (append_assoc)

  -- Unmarshal gives back the genesis state that Marshal wrote, if the fee's amounts are set and
  -- small, the fee is not the empty slice (which comes back as nil), the gas is a uint64, and the
  -- encoding is no longer than a Go slice can be.
  pub unmarshal_genesis_state-marshal_genesis_state :
      (m : GenesisState) (bytes : Bytes)
      → FeeSurvives m.params.denom_creation_fee
      → m.params.denom_creation_gas_consume < 2 ^ 64
      → marshal_genesis_state env wire m ≡ ok bytes
      → length bytes < 2 ^ 63
      → unmarshal_genesis_state env wire bytes ≡ ok m
  unfolding marshal_genesis_state unmarshal_genesis_state
  unmarshal_genesis_state-marshal_genesis_state m bytes kept gas written fits =
      let (denoms, ed, e') = >>=-eq-ok (repeated_field 2 marshal_genesis_denom _) _ written in
      let (params, ep, e) = >>=-eq-ok (marshal_params env wire m.params) _ e' in
      let shape = sym (ok-injective e) in
      let fits' = rw shape at fits in
      let read = λ (h : length params < 2 ^ 63).
        params_unmarshal-marshal_params m.params params kept gas ep h in
      rw shape (
        unmarshal_into-Decodes (genesis_state_cases env wire) _ m _ (
          Decodes-message (genesis_state_cases env wire) _ fits' 0 _ params _ _
            (record { params = m.params; factory_denoms = [] }) m refl (omega arith)
            (λ h. rw (read (omega arith)))
            (Decodes-repeated (genesis_state_cases env wire) _ fits' 1 marshal_genesis_denom
              read_denom add_denom m.factory_denoms denoms _ _ m refl (omega arith)
              (denoms-ReadsBack _ m.factory_denoms fits') ed
              (rw (add_denoms-append m.factory_denoms [] m.params)
                (Decodes-nil (genesis_state_cases env wire) _ m)))))
