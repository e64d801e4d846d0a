-- ===== src/Examples/Arrival.antt =====
-- A genesis with a denom of "oalice" that has changed hands and one that was renounced, as text too.
use tokenfactory.Base.{ℕ, ◌≡◌, refl, ap, subst, ◌∙◌, List, [], ◌∷◌, none, some}
use tokenfactory.Base.Bytes.{Bytes, text, same, contains, split, add_to_head}
use tokenfactory.Base.Outcome
use tokenfactory.Base.Outcome.{Outcome, ok, err, invalid_json}
use tokenfactory.Env.{Coins, coins, uint64, other, ParamPair, Value}
use tokenfactory.Types.Denoms.{deconstruct_denom, deconstruct_parts}
use tokenfactory.Types.Params.{params_validate, validate_denom_creation_fee, param_set_pairs}
use tokenfactory.Types.Authority.{no_admin}
use tokenfactory.Types.Genesis.{
  GenesisDenom, GenesisState, genesis_validate, genesis_denoms_validate, genesis_denom_validate,
  seen,
}
use tokenfactory.Keeper.Genesis.Valid.{ImportLaws}
use tokenfactory.Module.App.{JsonCodec}
use tokenfactory.Module.Laws.{JsonLaws}
use tokenfactory.Examples.Chain.{
  Ledger, chain, find, address_from_bech32, validate_denom, set_param, set_param_set,
  printed_no_bar,
}
use tokenfactory.Examples.Scenario.{bob, owned}

set_param-known :
    (ps : List ParamPair) (c : Ledger) (d : Bytes)
    → find (set_param_set ps c).1.known d ≡ find c.known d
unfolding set_param_set set_param
set_param-known [] c d = refl
set_param-known (p ∷ ps) c d =
    set_param-known ps (set_param p.value c) d ∙ ap (λ x. find x d) (one p.value c)
  where
    one : (v : Value) (c : Ledger) → (set_param v c).known ≡ c.known
    one (coins v) c = refl
    one (uint64 n) c = refl
    one other c = refl

set_param_set_ok : (ps : List ParamPair) (c : Ledger) → (set_param_set ps c).0 ≡ ok tt
unfolding set_param_set
set_param_set_ok [] c = refl
set_param_set_ok (p ∷ ps) c = set_param_set_ok ps (set_param p.value c)

pub chain-ImportLaws : ImportLaws chain
unfolding set_param_set set_param param_set_pairs
chain-ImportLaws = record {
  printed_no_bar = λ s h. printed_no_bar s h;
  new_coins_empty = (some [], refl, refl);
  set_param_set_ok = λ ps c h. set_param_set_ok ps c;
  get-set_param_set = set_param-known;
  stored = λ f. f;
  stored_some = λ c cs. refl;
  get_param_set-set_param_set = λ p c h. refl;
  params_kept = λ m c. refl;
}

-- "factory/oalice/gold", now bob's, and "factory/oalice/tin", nobody's.
abbrev pub genesis : GenesisState
genesis = record {
  params = record { denom_creation_fee = none; denom_creation_gas_consume = 9 };
  factory_denoms =
      record { denom = owned; authority_metadata = record { admin = bob } }
      ∷ (record { denom = text "factory/oalice/tin"; authority_metadata = no_admin } ∷ []);
}

pub genesis-valid : genesis_validate chain genesis ≡ ok tt
unfolding genesis_validate genesis_denoms_validate genesis_denom_validate seen params_validate
    validate_denom_creation_fee deconstruct_denom deconstruct_parts split add_to_head same contains
    address_from_bech32 validate_denom
genesis-valid = refl

-- A codec that writes the genesis without denoms and without a fee as its gas, and reads nothing as the
-- genesis above.
unfoldable pub read_json : Bytes → Outcome GenesisState
read_json [] = ok genesis
read_json (gas ∷ []) = ok (record {
  params = record { denom_creation_fee = some []; denom_creation_gas_consume = gas };
  factory_denoms = [];
})
read_json (b ∷ (c ∷ rest)) = err invalid_json

unfoldable pub write_json : Coins → ℕ → List GenesisDenom → Outcome Bytes
write_json (some []) gas [] = ok (gas ∷ [])
write_json (some []) gas (g ∷ gs) = err invalid_json
write_json (some (c ∷ cs)) gas gs = err invalid_json
write_json none gas gs = err invalid_json

abbrev pub codec : JsonCodec
codec = record {
  marshal_json = λ gs.
      write_json gs.params.denom_creation_fee gs.params.denom_creation_gas_consume
        gs.factory_denoms;
  unmarshal_json = read_json;
}

read_json-write_json :
    (fee : Coins) (gas : ℕ) (gs : List GenesisDenom) {bz : Bytes}
    → write_json fee gas gs ≡ ok bz
    → read_json bz
      ≡ ok (record {
        params = record { denom_creation_fee = fee; denom_creation_gas_consume = gas };
        factory_denoms = gs;
      })
unfolding write_json read_json
read_json-write_json (some []) gas [] {bz} h =
    let same_bytes : gas ∷ [] ≡ bz = Outcome.ok-injective h in
    subst (λ b. read_json b ≡ read_json (gas ∷ [])) same_bytes refl
read_json-write_json (some []) gas (g ∷ gs) h = cc
read_json-write_json (some (c ∷ cs)) gas gs h = cc
read_json-write_json none gas gs h = cc

pub codec-JsonLaws : JsonLaws codec
codec-JsonLaws = record {
  read_back = λ gs h.
      read_json-write_json gs.params.denom_creation_fee gs.params.denom_creation_gas_consume
        gs.factory_denoms h;
}
