-- ===== src/Codec/Laws/Marshal.antt =====
-- Marshal goes through, and writes as many bytes as Size says.
use tokenfactory.Base.{
  ℕ, ◌^◌, ◌<◌, ◌≡◌, refl, ap, ◌∙◌, List, [], ◌∷◌, ◌++◌, arith, length, length-append,
}
use tokenfactory.Base.Bytes.{Bytes}
use tokenfactory.Base.Outcome.{Outcome, ok, ◌>>=◌}
use tokenfactory.Env.{Env}
use tokenfactory.Types.Messages.{
  MsgCreateDenom, MsgMint, MsgBurn, MsgForceTransfer, MsgChangeAdmin, MsgSetDenomMetadata, Msg,
}
use tokenfactory.Codec.Varint.{encode_varint}
use tokenfactory.Codec.Wire.{Wire, WireLaws, IsSmall}
use tokenfactory.Codec.Fields.{
  message_field, string_field, uint64_field, repeated_field, message_size, string_size, uint64_size,
  repeated_size, concat,
}
use tokenfactory.Codec.Messages.{
  marshal_create_denom, size_create_denom, marshal_change_admin, size_change_admin, marshal_mint,
  size_mint, marshal_burn, size_burn, marshal_force_transfer, size_force_transfer,
  marshal_set_denom_metadata, size_set_denom_metadata,
}
use tokenfactory.Codec.Any.{marshal_msg, size_msg}
use tokenfactory.Codec.Laws.Messages.{Survives}
use tokenfactory.Codec.Laws.Sizes.{length-encode_varint}

pub bind_ok :
    {A B : Type 0} {m : Outcome A} {a : A} (f : A → Outcome B) → m ≡ ok a → (m >>= f) ≡ f a
bind_ok f e = ap (λ o. o >>= f) e

pub length-message_field :
    (k : ℕ) (b : Bytes)
    → message_size (length b) < 2 ^ 63
    → length (message_field k b) ≡ message_size (length b)
unfolding message_field message_size
length-message_field k b h = omega (
  arith,
  length-append (encode_varint (length b)) b,
  length-encode_varint (length b) (omega arith),
)

pub length-string_field :
    (k : ℕ) (s : Bytes) → string_size s < 2 ^ 63 → length (string_field k s) ≡ string_size s
unfolding string_field string_size
length-string_field k [] h = refl
length-string_field k (x ∷ s) h = ground (arith, length-message_field k (x ∷ s))

pub length-uint64_field : (k v : ℕ) → v < 2 ^ 64 → length (uint64_field k v) ≡ uint64_size v
unfolding uint64_field uint64_size
length-uint64_field k v h = ground (arith, length-encode_varint v h)

module _ {A : Type 0} (k : ℕ) (marshal : A → Outcome Bytes) (size : A → ℕ) where
  -- Each element is written in the size that it says.
  abbrev pub AreSized : List A → Type 0
  AreSized [] = Unit
  AreSized (x ∷ xs) = ((b : Bytes) × (marshal x ≡ ok b) × (length b ≡ size x)) × AreSized xs

  pub repeated_field-sized :
      (xs : List A)
      → AreSized xs
      → repeated_size size xs < 2 ^ 63
      → (b : Bytes) × (repeated_field k marshal xs ≡ ok b) × (length b ≡ repeated_size size xs)
  unfolding repeated_field repeated_size
  repeated_field-sized [] h fits = ([], refl, refl)
  repeated_field-sized (x ∷ xs) ((b, e, l), hs) fits =
      let (rest, e', l') = repeated_field-sized xs hs (omega arith) in
      (
        message_field k b ++ rest,
        rw (e', e),
        length-append (message_field k b) rest
            ∙ (let same : message_size (length b) ≡ message_size (size x) = ap message_size l in
                omega (arith, length-message_field k b (omega arith), same)),
      )

marshal_create_denom-sized :
    (m : MsgCreateDenom)
    → size_create_denom m < 2 ^ 63
    → length (marshal_create_denom m) ≡ size_create_denom m
unfolding marshal_create_denom size_create_denom
marshal_create_denom-sized m fits = omega (
  arith,
  length-append (string_field 1 m.sender) (concat (string_field 2 m.subdenom ∷ ([]))),
  length-append (string_field 2 m.subdenom) (concat ([])),
  length-string_field 1 m.sender (omega arith),
  length-string_field 2 m.subdenom (omega arith),
)

marshal_change_admin-sized :
    (m : MsgChangeAdmin)
    → size_change_admin m < 2 ^ 63
    → length (marshal_change_admin m) ≡ size_change_admin m
unfolding marshal_change_admin size_change_admin
marshal_change_admin-sized m fits = omega (
  arith,
  length-append (string_field 1 m.sender)
      (concat (string_field 2 m.denom ∷ (string_field 3 m.new_admin ∷ ([])))),
  length-append (string_field 2 m.denom) (concat (string_field 3 m.new_admin ∷ ([]))),
  length-append (string_field 3 m.new_admin) (concat ([])),
  length-string_field 1 m.sender (omega arith),
  length-string_field 2 m.denom (omega arith),
  length-string_field 3 m.new_admin (omega arith),
)

module _ (env : Env) (wire : Wire env) (laws : WireLaws env wire) where
  marshal_mint-sized :
      (m : MsgMint)
      → IsSmall m.amount.amount
      → size_mint env wire m < 2 ^ 63
      → (b : Bytes) × (marshal_mint env wire m ≡ ok b) × (length b ≡ size_mint env wire m)
  unfolding marshal_mint size_mint
  marshal_mint-sized m small fits =
      let (c, e) = laws.coin_written m.amount small in
      let same : message_size (length c) ≡ message_size (wire.coin_size m.amount) =
        ap message_size (laws.coin_sized m.amount c e) in
      (
        _,
        bind_ok _ e,
        omega (
          arith,
          length-append (string_field 1 m.sender)
              (concat (message_field 2 c ∷ (string_field 3 m.mint_to_address ∷ ([])))),
          length-append (message_field 2 c) (concat (string_field 3 m.mint_to_address ∷ ([]))),
          length-append (string_field 3 m.mint_to_address) (concat ([])),
          length-string_field 1 m.sender (omega arith),
          length-message_field 2 c (omega (arith, same)),
          length-string_field 3 m.mint_to_address (omega arith),
          same,
        ),
      )

  marshal_burn-sized :
      (m : MsgBurn)
      → IsSmall m.amount.amount
      → size_burn env wire m < 2 ^ 63
      → (b : Bytes) × (marshal_burn env wire m ≡ ok b) × (length b ≡ size_burn env wire m)
  unfolding marshal_burn size_burn
  marshal_burn-sized m small fits =
      let (c, e) = laws.coin_written m.amount small in
      let same : message_size (length c) ≡ message_size (wire.coin_size m.amount) =
        ap message_size (laws.coin_sized m.amount c e) in
      (
        _,
        bind_ok _ e,
        omega (
          arith,
          length-append (string_field 1 m.sender)
              (concat (message_field 2 c ∷ (string_field 3 m.burn_from_address ∷ ([])))),
          length-append (message_field 2 c) (concat (string_field 3 m.burn_from_address ∷ ([]))),
          length-append (string_field 3 m.burn_from_address) (concat ([])),
          length-string_field 1 m.sender (omega arith),
          length-message_field 2 c (omega (arith, same)),
          length-string_field 3 m.burn_from_address (omega arith),
          same,
        ),
      )

  marshal_force_transfer-sized :
      (m : MsgForceTransfer)
      → IsSmall m.amount.amount
      → size_force_transfer env wire m < 2 ^ 63
      → (b : Bytes) × (marshal_force_transfer env wire m ≡ ok b)
        × (length b ≡ size_force_transfer env wire m)
  unfolding marshal_force_transfer size_force_transfer
  marshal_force_transfer-sized m small fits =
      let (c, e) = laws.coin_written m.amount small in
      let same : message_size (length c) ≡ message_size (wire.coin_size m.amount) =
        ap message_size (laws.coin_sized m.amount c e) in
      (
        _,
        bind_ok _ e,
        omega (
          arith,
          length-append (string_field 1 m.sender) (
              concat (
                message_field 2 c
                ∷ (string_field 3 m.transfer_from_address
                    ∷ (string_field 4 m.transfer_to_address ∷ ([]))))),
          length-append (message_field 2 c) (
              concat (
                string_field 3 m.transfer_from_address
                ∷ (string_field 4 m.transfer_to_address ∷ ([])))),
          length-append (string_field 3 m.transfer_from_address)
              (concat (string_field 4 m.transfer_to_address ∷ ([]))),
          length-append (string_field 4 m.transfer_to_address) (concat ([])),
          length-string_field 1 m.sender (omega arith),
          length-message_field 2 c (omega (arith, same)),
          length-string_field 3 m.transfer_from_address (omega arith),
          length-string_field 4 m.transfer_to_address (omega arith),
          same,
        ),
      )

  marshal_set_denom_metadata-sized :
      (m : MsgSetDenomMetadata env)
      → size_set_denom_metadata env wire m < 2 ^ 63
      → (b : Bytes) × (marshal_set_denom_metadata env wire m ≡ ok b)
        × (length b ≡ size_set_denom_metadata env wire m)
  unfolding marshal_set_denom_metadata size_set_denom_metadata
  marshal_set_denom_metadata-sized m fits =
      let (c, e) = laws.metadata_written m.metadata in
      let same : message_size (length c) ≡ message_size (wire.metadata_size m.metadata) =
        ap message_size (laws.metadata_sized m.metadata c e) in
      (
        _,
        bind_ok _ e,
        omega (
          arith,
          length-append (string_field 1 m.sender) (concat (message_field 2 c ∷ ([]))),
          length-append (message_field 2 c) (concat ([])),
          length-string_field 1 m.sender (omega arith),
          length-message_field 2 c (omega (arith, same)),
          same,
        ),
      )

  -- Marshal of a message whose amount is set and small, and whose size a Go slice can have, returns
  -- as many bytes as Size says.
  pub marshal_msg-size_msg :
      (m : Msg env)
      → Survives env wire m
      → size_msg env wire m < 2 ^ 63
      → (b : Bytes) × (marshal_msg env wire m ≡ ok b) × (length b ≡ size_msg env wire m)
  unfolding marshal_msg size_msg
  marshal_msg-size_msg (Msg.create_denom m) kept fits =
      (marshal_create_denom m, refl, marshal_create_denom-sized m fits)
  marshal_msg-size_msg (Msg.mint m) kept fits = marshal_mint-sized m kept fits
  marshal_msg-size_msg (Msg.burn m) kept fits = marshal_burn-sized m kept fits
  marshal_msg-size_msg (Msg.force_transfer m) kept fits = marshal_force_transfer-sized m kept fits
  marshal_msg-size_msg (Msg.change_admin m) kept fits =
      (marshal_change_admin m, refl, marshal_change_admin-sized m fits)
  marshal_msg-size_msg (Msg.set_denom_metadata m) kept fits =
      marshal_set_denom_metadata-sized m fits
