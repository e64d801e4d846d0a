-- ===== src/Types/Keys.antt =====
-- types/keys.go: names of the module, and the prefixes under which it keeps its data.
pub mod Separation
use tokenfactory.Base.{List, [], ◌∷◌, ◌++◌}
use tokenfactory.Base.Bytes.{Bytes, text, join}

abbrev pub module_name : Bytes
module_name = text "tokenfactory"

abbrev pub store_key : Bytes
store_key = module_name

abbrev pub router_key : Bytes
router_key = module_name

abbrev pub querier_route : Bytes
querier_route = module_name

abbrev pub mem_store_key : Bytes
mem_store_key = text "mem_tokenfactory"

abbrev pub key_separator : Bytes
key_separator = text "|"

abbrev pub denom_authority_metadata_key : Bytes
denom_authority_metadata_key = text "authoritymetadata"

abbrev pub denoms_prefix_key : Bytes
denoms_prefix_key = text "denoms"

abbrev pub creator_prefix_key : Bytes
creator_prefix_key = text "creator"

-- GetDenomPrefixStore
unfoldable pub denom_prefix_store : Bytes → Bytes
denom_prefix_store denom = join key_separator (denoms_prefix_key ∷ (denom ∷ ([] ∷ [])))

-- GetCreatorPrefix
unfoldable pub creator_prefix : Bytes → Bytes
creator_prefix creator = join key_separator (creator_prefix_key ∷ (creator ∷ ([] ∷ [])))

-- GetCreatorsPrefix
unfoldable pub creators_prefix : Bytes
creators_prefix = join key_separator (creator_prefix_key ∷ ([] ∷ []))

-- The key under which a denom's authority metadata stands: the prefix store adds its prefix.
unfoldable pub authority_key : Bytes → Bytes
authority_key denom = denom_prefix_store denom ++ denom_authority_metadata_key
