-- ===== src/Env/Laws.antt =====
-- What the module relies on, of the code outside: one record for each of its parts.
use tokenfactory.Base.{
  ℕ, ◌≤◌, ◌≡◌, ◌≢◌, ◌∙◌, ◌↔◌, false, some, [], List, ◌++◌, Elem, length, if◌then◌else◌,
}
use tokenfactory.Base.Bytes.{Bytes, same, same_refl, ne→same, contains}
use tokenfactory.Base.Outcome.{ok, IsErr}
use tokenfactory.Env.Kinds.{Env, Coins}

module _ (env : Env) where
  -- The key-value store.
  pub record StoreLaws : Type 0 where
    pub get-set :
        (k j v : Bytes) (s : env.Store)
        → env.kv_get (env.kv_set k v s) j ≡ (if same k j then some v else env.kv_get s j)
    -- a prefix store's iterator visits exactly the keys with the prefix
    pub elem-iterate :
        (p k v : Bytes) (s : env.Store)
        → Elem (k, v) (env.kv_iterate p s) ↔ (env.kv_get s (p ++ k) ≡ some v)

  -- Bech32 addresses: the empty text is none, a text that decodes is short, and an address prints as
  -- a text that decodes to it.
  pub record AddressLaws : Type 0 where
    pub empty : IsErr (env.address_from_bech32 [])
    pub short : (s : Bytes) {a : Bytes} → env.address_from_bech32 s ≡ ok a → length s ≤ 1023
    pub print :
        (s : Bytes) {a : Bytes}
        → env.address_from_bech32 s ≡ ok a
        → env.address_from_bech32 (env.address_string a) ≡ ok a

  -- A denom that the SDK finds valid holds no "|".
  pub record DenomLaws : Type 0 where
    pub no_bar : (d : Bytes) → env.validate_denom d ≡ ok tt → contains b'|' d ≡ false

  -- The denom metadata that the bank keeps: written under its base, and by nothing else.
  pub record BankLaws : Type 0 where
    pub base-new_metadata : (u : List (Bytes × ℕ)) (b : Bytes) → env.base (env.new_metadata u b) ≡ b
    pub get-set :
        (m : env.Metadata) (d : Bytes) (c : env.Chain)
        → env.get_denom_metadata (env.set_denom_metadata m c) d
          ≡ (if same (env.base m) d then some m else env.get_denom_metadata c d)
    pub get-mint_coins :
        (n : Bytes) (a : Coins) (c : env.Chain) (d : Bytes)
        → env.get_denom_metadata (env.mint_coins n a c).1 d ≡ env.get_denom_metadata c d
    pub get-burn_coins :
        (n : Bytes) (a : Coins) (c : env.Chain) (d : Bytes)
        → env.get_denom_metadata (env.burn_coins n a c).1 d ≡ env.get_denom_metadata c d
    pub get-send_coins_from_module_to_account :
        (n t : Bytes) (a : Coins) (c : env.Chain) (d : Bytes)
        → env.get_denom_metadata (env.send_coins_from_module_to_account n t a c).1 d
          ≡ env.get_denom_metadata c d
    pub get-send_coins_from_account_to_module :
        (f n : Bytes) (a : Coins) (c : env.Chain) (d : Bytes)
        → env.get_denom_metadata (env.send_coins_from_account_to_module f n a c).1 d
          ≡ env.get_denom_metadata c d
    pub get-send_coins :
        (f t : Bytes) (a : Coins) (c : env.Chain) (d : Bytes)
        → env.get_denom_metadata (env.send_coins f t a c).1 d ≡ env.get_denom_metadata c d
    pub get-get_module_account :
        (n : Bytes) (c : env.Chain) (d : Bytes)
        → env.get_denom_metadata (env.get_module_account n c).1 d ≡ env.get_denom_metadata c d
    pub get-fund_community_pool :
        (a : Coins) (f : Bytes) (c : env.Chain) (d : Bytes)
        → env.get_denom_metadata (env.fund_community_pool a f c).1 d ≡ env.get_denom_metadata c d
    pub get-consume_gas :
        (n : ℕ) (c : env.Chain) (d : Bytes)
        → env.get_denom_metadata (env.consume_gas n c).1 d ≡ env.get_denom_metadata c d

module _ {env : Env} (laws : StoreLaws env) (k v : Bytes) (s : env.Store) where
  pub kv_get-kv_set_self : env.kv_get (env.kv_set k v s) k ≡ some v
  kv_get-kv_set_self = laws.get-set k k v s ∙ rw same_refl

  pub kv_get-kv_set_ne : (j : Bytes) → k ≢ j → env.kv_get (env.kv_set k v s) j ≡ env.kv_get s j
  kv_get-kv_set_ne j n = laws.get-set k j v s ∙ rw (ne→same k j n)
