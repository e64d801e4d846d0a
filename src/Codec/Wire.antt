-- ===== src/Codec/Wire.antt =====
-- The codecs of the SDK's messages that messages of the module hold: types.Coin and
-- banktypes.Metadata. Both are parameters.
use tokenfactory.Base.{ℕ, ◌^◌, ◌<◌, ◌≡◌, [], length, ◌⊎◌}
use tokenfactory.Base.Bytes.{Bytes}
use tokenfactory.Base.Outcome.{Outcome, Error, ok, err}
use tokenfactory.Env.{Env, Coin, ℤ, unset, pos, negsuc}

-- Marshal may fail. Unmarshal works on a message that is there, and merges into it.
pub record Wire (env : Env) : Type 0 where
  pub coin_marshal : Coin → Outcome Bytes
  pub coin_size : Coin → ℕ
  pub coin_unmarshal : Coin → Bytes → Outcome Coin
  pub metadata_marshal : env.Metadata → Outcome Bytes
  pub metadata_size : env.Metadata → ℕ
  pub metadata_unmarshal : env.Metadata → Bytes → Outcome env.Metadata
  -- banktypes.Metadata{}
  pub no_metadata : env.Metadata

-- types.Coin{}
abbrev pub no_coin : Coin
no_coin = record { denom = []; amount = unset }

-- The integer is set, and has 255 bits at most.
abbrev pub IsSmall : ℤ → Type 0
IsSmall unset = ⊥
IsSmall (pos n) = n < 2 ^ 255
IsSmall (negsuc n) = n < 2 ^ 255

module _ (env : Env) (wire : Wire env) where
  -- The metadata that decoding gives: no slice in it is empty and not nil.
  abbrev pub WasDecoded : env.Metadata → Type 0
  WasDecoded m = (b : Bytes) × (wire.metadata_unmarshal wire.no_metadata b ≡ ok m)

  -- What the codecs of the SDK promise: an amount that is set and small survives, and so does
  -- metadata that was decoded; Size is the length of what Marshal writes; Unmarshal does not panic.
  pub record WireLaws : Type 0 where
    pub coin_written : (c : Coin) → IsSmall c.amount → (b : Bytes) × (wire.coin_marshal c ≡ ok b)
    pub coin_read :
        (c : Coin) (b : Bytes)
        → IsSmall c.amount
        → wire.coin_marshal c ≡ ok b
        → wire.coin_unmarshal no_coin b ≡ ok c
    pub coin_sized :
        (c : Coin) (b : Bytes) → wire.coin_marshal c ≡ ok b → length b ≡ wire.coin_size c
    pub coin_ends :
        (c : Coin) (b : Bytes)
        → ((d : Coin) × (wire.coin_unmarshal c b ≡ ok d))
          ⊎ ((e : Error) × (wire.coin_unmarshal c b ≡ err e))
    pub metadata_written : (m : env.Metadata) → (b : Bytes) × (wire.metadata_marshal m ≡ ok b)
    pub metadata_read :
        (m : env.Metadata) (b : Bytes)
        → WasDecoded m
        → wire.metadata_marshal m ≡ ok b
        → wire.metadata_unmarshal wire.no_metadata b ≡ ok m
    pub metadata_sized :
        (m : env.Metadata) (b : Bytes)
        → wire.metadata_marshal m ≡ ok b
        → length b ≡ wire.metadata_size m
    pub metadata_ends :
        (m : env.Metadata) (b : Bytes)
        → ((n : env.Metadata) × (wire.metadata_unmarshal m b ≡ ok n))
          ⊎ ((e : Error) × (wire.metadata_unmarshal m b ≡ err e))
