-- ===== src/Examples/Denoms.antt =====
-- The theorems on denoms and on the codec, at concrete inputs.
use tokenfactory.Base.{◌≡◌, ◌≤◌, ◌↔◌, refl, ◌∷◌, length}
use tokenfactory.Base.Bytes.{Bytes, text, contains}
use tokenfactory.Base.Outcome.{ok}
use tokenfactory.Types.Denoms.{get_token_denom, deconstruct_denom, token_denom}
use tokenfactory.Types.Denoms.RoundTrip.{
  IsFactoryDenom, deconstruct_denom-IsFactoryDenom, deconstruct_denom-get_token_denom,
  get_token_denom-injective, length-get_token_denom,
}
use tokenfactory.Examples.Chain.{chain, address_from_bech32, validate_denom}

abbrev alice : Bytes
alice = text "oalice"

abbrev gold : Bytes
gold = text "factory/oalice/gold"

gold_built : get_token_denom chain alice (text "gold") ≡ ok gold
unfolding get_token_denom token_denom contains validate_denom
gold_built = refl

alice_decodes : address_from_bech32 alice ≡ ok (text "alice")
unfolding address_from_bech32 contains
alice_decodes = refl

deconstruct_denom-get_token_denom_example : deconstruct_denom chain gold ≡ ok (alice, text "gold")
deconstruct_denom-get_token_denom_example =
    deconstruct_denom-get_token_denom chain alice (text "gold") gold_built alice_decodes

get_token_denom-injective_example : (alice ≡ alice) × (text "gold" ≡ text "gold")
get_token_denom-injective_example =
    get_token_denom-injective chain alice (text "gold") alice (text "gold") gold_built gold_built

length-get_token_denom_example : length gold ≤ 128
length-get_token_denom_example = length-get_token_denom chain alice (text "gold") gold_built

deconstruct_denom-IsFactoryDenom_example :
    (deconstruct_denom chain gold ≡ ok (alice, text "gold"))
    ↔ ((c a : Bytes) × IsFactoryDenom chain gold c (text "gold") a × (alice ≡ 111 ∷ a))
deconstruct_denom-IsFactoryDenom_example =
    deconstruct_denom-IsFactoryDenom chain gold alice (text "gold")
