-- ===== src/Examples/Encodings.antt =====
-- The theorems on the codecs at concrete inputs, over codecs of coins and metadata that satisfy the
-- laws: a coin is its sign, its amount and its denom, metadata stands for itself.
use tokenfactory.Base.{
  zero, suc, ◌+◌, ◌^◌, ◌<◌, ◌≡◌, refl, sym, ap, ◌∙◌, ◌⊎◌, inl, inr, [], ◌∷◌, ◌++◌, some, length,
  arith,
}
use tokenfactory.Base.Bytes.{Bytes, text}
use tokenfactory.Base.Outcome.{Outcome, Error, ok, err, invalid_length, ok-injective}
use tokenfactory.Env.{Coin, ℤ, unset, pos, negsuc}
use tokenfactory.Types.Messages.{Msg, MsgType, MsgMint}
use tokenfactory.Types.Genesis.{GenesisState}
use tokenfactory.Codec.Varint.{encode_varint, encode_groups, sov, bit_length}
use tokenfactory.Codec.Authority
use tokenfactory.Codec.Wire.{Wire, WireLaws, IsSmall}
use tokenfactory.Codec.Fields.{
  message_field, string_field, uint64_field, repeated_field, message_size, string_size,
}
use tokenfactory.Codec.Messages.{marshal_mint, size_mint}
use tokenfactory.Codec.Any.{marshal_msg, size_msg, unmarshal_msg}
use tokenfactory.Codec.Genesis.{
  marshal_genesis_denom, marshal_params, marshal_genesis_state, unmarshal_genesis_state,
}
use tokenfactory.Codec.Laws.Messages.{unmarshal_msg-marshal_msg}
use tokenfactory.Codec.Laws.Marshal.{marshal_msg-size_msg}
use tokenfactory.Codec.Laws.Genesis.{unmarshal_genesis_state-marshal_genesis_state}
use tokenfactory.Examples.Chain.{chain}

coin_bytes : Coin → Bytes
coin_bytes c = elim c.amount [
  | unset ↦ 0 ∷ (0 ∷ c.denom)
  | pos n ↦ 0 ∷ (n ∷ c.denom)
  | negsuc n ↦ 1 ∷ (n ∷ c.denom)
]

coin_of : Bytes → Outcome Coin
coin_of (zero ∷ (n ∷ d)) = ok (record { denom = d; amount = pos n })
coin_of (suc zero ∷ (n ∷ d)) = ok (record { denom = d; amount = negsuc n })
coin_of _ = err invalid_length

abbrev wire : Wire chain
wire = record {
  coin_marshal = λ c. ok (coin_bytes c);
  coin_size = λ c. 2 + length c.denom;
  coin_unmarshal = λ c b. coin_of b;
  metadata_marshal = λ m. ok m;
  metadata_size = λ m. length m;
  metadata_unmarshal = λ m b. ok b;
  no_metadata = [];
}

coin_read :
    (d : Bytes) (n : ℤ)
    → IsSmall n
    → coin_of (coin_bytes (record { denom = d; amount = n }))
      ≡ ok (record { denom = d; amount = n })
unfolding coin_of coin_bytes
coin_read d unset h = absurd h
coin_read d (pos n) h = refl
coin_read d (negsuc n) h = refl

coin_sized :
    (d : Bytes) (n : ℤ) → length (coin_bytes (record { denom = d; amount = n })) ≡ 2 + length d
unfolding coin_bytes
coin_sized d unset = omega arith
coin_sized d (pos n) = omega arith
coin_sized d (negsuc n) = omega arith

coin_ends : (b : Bytes) → ((c : Coin) × (coin_of b ≡ ok c)) ⊎ ((e : Error) × (coin_of b ≡ err e))
unfolding coin_of
coin_ends [] = inr (_, refl)
coin_ends (zero ∷ []) = inr (_, refl)
coin_ends (zero ∷ (n ∷ d)) = inl (_, refl)
coin_ends (suc zero ∷ []) = inr (_, refl)
coin_ends (suc zero ∷ (n ∷ d)) = inl (_, refl)
coin_ends (suc (suc k) ∷ d) = inr (_, refl)

wire-WireLaws : WireLaws chain wire
wire-WireLaws = record {
  coin_written = λ c h. (coin_bytes c, refl);
  coin_read = λ c b h e. ap coin_of (sym (ok-injective e)) ∙ coin_read c.denom c.amount h;
  coin_sized =
      λ c b e. ap (λ (t : Bytes). length t) (sym (ok-injective e)) ∙ coin_sized c.denom c.amount;
  coin_ends = λ c b. coin_ends b;
  metadata_written = λ m. (m, refl);
  metadata_read = λ m b h e. sym e;
  metadata_sized = λ m b e. ap (λ (t : Bytes). length t) (sym (ok-injective e));
  metadata_ends = λ m b. inl (b, refl);
}

abbrev mint_gold : MsgMint
mint_gold = record {
  sender = text "oalice";
  amount = record { denom = text "factory/oalice/gold"; amount = pos 300 };
  mint_to_address = [];
}

abbrev mint_gold_bytes : Bytes
mint_gold_bytes =
    10 ∷ (6 ∷ (text "oalice" ++ (18 ∷ (21 ∷ (0 ∷ (300 ∷ text "factory/oalice/gold"))))))

mint_gold_marshal : marshal_msg chain wire (Msg.mint mint_gold) ≡ ok mint_gold_bytes
unfolding marshal_msg marshal_mint message_field string_field encode_varint encode_groups coin_bytes
mint_gold_marshal = refl

unmarshal_msg-marshal_msg_example :
    unmarshal_msg chain wire MsgType.mint mint_gold_bytes ≡ ok (Msg.mint mint_gold)
unmarshal_msg-marshal_msg_example =
    unmarshal_msg-marshal_msg chain wire wire-WireLaws (Msg.mint mint_gold) mint_gold_bytes
      (omega arith) mint_gold_marshal (omega arith)

mint_gold_short : size_msg chain wire (Msg.mint mint_gold) < 2 ^ 63
unfolding size_msg size_mint message_size string_size sov bit_length
mint_gold_short = omega arith

marshal_msg-size_msg_example :
    (b : Bytes) × (marshal_msg chain wire (Msg.mint mint_gold) ≡ ok b)
    × (length b ≡ size_msg chain wire (Msg.mint mint_gold))
marshal_msg-size_msg_example =
    marshal_msg-size_msg chain wire wire-WireLaws (Msg.mint mint_gold) (omega arith) mint_gold_short

abbrev genesis : GenesisState
genesis = record {
  params = record {
    denom_creation_fee = some (record { denom = text "uosmo"; amount = pos 10 } ∷ []);
    denom_creation_gas_consume = 1_000_000;
  };
  factory_denoms =
      record {
        denom = text "factory/oalice/gold";
        authority_metadata = record { admin = text "oalice" };
      }
      ∷ [];
}

abbrev genesis_bytes : Bytes
genesis_bytes =
    10
    ∷ (13
        ∷ (10
            ∷ (7
                ∷ (0
                    ∷ (10
                        ∷ (text "uosmo"
                            ++ (16
                                ∷ (192
                                    ∷ (132
                                        ∷ (61
                                            ∷ (18
                                                ∷ (31
                                                    ∷ (10
                                                        ∷ (19
                                                            ∷ (text "factory/oalice/gold"
                                                            ++ (18
                                                            ∷ (8
                                                            ∷ (10
                                                            ∷ (6 ∷ text "oalice")))))))))))))))))))

genesis_marshal : marshal_genesis_state chain wire genesis ≡ ok genesis_bytes
unfolding marshal_genesis_state marshal_params marshal_genesis_denom Authority.marshal
    repeated_field message_field string_field uint64_field encode_varint encode_groups coin_bytes
genesis_marshal = refl

unmarshal_genesis_state-marshal_genesis_state_example :
    unmarshal_genesis_state chain wire genesis_bytes ≡ ok genesis
unmarshal_genesis_state-marshal_genesis_state_example =
    unmarshal_genesis_state-marshal_genesis_state chain wire wire-WireLaws genesis genesis_bytes
      (omega arith) (omega arith) genesis_marshal (omega arith)
