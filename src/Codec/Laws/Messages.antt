-- ===== src/Codec/Laws/Messages.antt =====
-- The messages survive their encoding.
use tokenfactory.Base.{◌^◌, ◌<◌, ◌≡◌, refl, sym, arith, length}
use tokenfactory.Base.Bytes.{Bytes}
use tokenfactory.Base.Outcome.{ok, ok-injective, >>=-eq-ok}
use tokenfactory.Env.{Env}
use tokenfactory.Types.Messages.{
  MsgCreateDenom, MsgMint, MsgBurn, MsgForceTransfer, MsgChangeAdmin, MsgSetDenomMetadata, Msg,
  go_type,
}
use tokenfactory.Codec.Wire.{Wire, WireLaws, IsSmall, WasDecoded}
use tokenfactory.Codec.Messages.{
  marshal_create_denom, create_denom_cases, unmarshal_create_denom, marshal_change_admin,
  change_admin_cases, unmarshal_change_admin, marshal_mint, mint_cases, unmarshal_mint,
  marshal_burn, burn_cases, unmarshal_burn, marshal_force_transfer, force_transfer_cases,
  unmarshal_force_transfer, marshal_set_denom_metadata, set_denom_metadata_cases,
  unmarshal_set_denom_metadata,
}
use tokenfactory.Codec.Any.{marshal_msg, unmarshal_msg}
use tokenfactory.Codec.Laws.Decoding.{
  Decodes-nil, Decodes-string, Decodes-message, unmarshal_into-Decodes,
}

-- A MsgCreateDenom survives its encoding, if that is no longer than a Go slice can be.
pub unmarshal_create_denom-marshal_create_denom :
    (m : MsgCreateDenom)
    → length (marshal_create_denom m) < 2 ^ 63
    → unmarshal_create_denom (marshal_create_denom m) ≡ ok m
unfolding marshal_create_denom unmarshal_create_denom
unmarshal_create_denom-marshal_create_denom m fits =
    unmarshal_into-Decodes create_denom_cases _ m _ (
      Decodes-string create_denom_cases _ fits 0 _ m.sender _ _ m refl (omega arith) refl (
        Decodes-string create_denom_cases _ fits 1 _ m.subdenom _ _ m refl (omega arith) refl
          (Decodes-nil create_denom_cases _ m)))

pub unmarshal_change_admin-marshal_change_admin :
    (m : MsgChangeAdmin)
    → length (marshal_change_admin m) < 2 ^ 63
    → unmarshal_change_admin (marshal_change_admin m) ≡ ok m
unfolding marshal_change_admin unmarshal_change_admin
unmarshal_change_admin-marshal_change_admin m fits =
    unmarshal_into-Decodes change_admin_cases _ m _ (
      Decodes-string change_admin_cases _ fits 0 _ m.sender _ _ m refl (omega arith) refl (
        Decodes-string change_admin_cases _ fits 1 _ m.denom _ _ m refl (omega arith) refl (
          Decodes-string change_admin_cases _ fits 2 _ m.new_admin _ _ m refl (omega arith) refl
            (Decodes-nil change_admin_cases _ m))))

module _ (env : Env) (wire : Wire env) where
  -- What the fields of a message of the SDK need to survive: a small amount, decoded metadata.
  abbrev pub Survives : Msg env → Type 0
  Survives (Msg.create_denom m) = Unit
  Survives (Msg.mint m) = IsSmall m.amount.amount
  Survives (Msg.burn m) = IsSmall m.amount.amount
  Survives (Msg.force_transfer m) = IsSmall m.amount.amount
  Survives (Msg.change_admin m) = Unit
  Survives (Msg.set_denom_metadata m) = WasDecoded env wire m.metadata

module _ (env : Env) (wire : Wire env) (laws : WireLaws env wire) where
  unmarshal_mint-marshal_mint :
      (m : MsgMint) (bytes : Bytes)
      → IsSmall m.amount.amount
      → marshal_mint env wire m ≡ ok bytes
      → length bytes < 2 ^ 63
      → unmarshal_mint env wire bytes ≡ ok m
  unfolding marshal_mint unmarshal_mint
  unmarshal_mint-marshal_mint m bytes kept written fits =
      let (c, ec, e) = >>=-eq-ok (wire.coin_marshal m.amount) _ written in
      let shape = sym (ok-injective e) in
      let fits' = rw shape at fits in
      let read = laws.coin_read m.amount c kept ec in
      rw shape (
        unmarshal_into-Decodes (mint_cases env wire) _ m _ (
          Decodes-string (mint_cases env wire) _ fits' 0 _ m.sender _ _ m refl (omega arith) refl (
            Decodes-message (mint_cases env wire) _ fits' 1 _ c _ _ _ m refl (omega arith)
              (λ h. rw read)
              (Decodes-string (mint_cases env wire) _ fits' 2 _ m.mint_to_address _ _ m refl
                (omega arith) refl (Decodes-nil (mint_cases env wire) _ m)))))

  unmarshal_burn-marshal_burn :
      (m : MsgBurn) (bytes : Bytes)
      → IsSmall m.amount.amount
      → marshal_burn env wire m ≡ ok bytes
      → length bytes < 2 ^ 63
      → unmarshal_burn env wire bytes ≡ ok m
  unfolding marshal_burn unmarshal_burn
  unmarshal_burn-marshal_burn m bytes kept written fits =
      let (c, ec, e) = >>=-eq-ok (wire.coin_marshal m.amount) _ written in
      let shape = sym (ok-injective e) in
      let fits' = rw shape at fits in
      let read = laws.coin_read m.amount c kept ec in
      rw shape (
        unmarshal_into-Decodes (burn_cases env wire) _ m _ (
          Decodes-string (burn_cases env wire) _ fits' 0 _ m.sender _ _ m refl (omega arith) refl (
            Decodes-message (burn_cases env wire) _ fits' 1 _ c _ _ _ m refl (omega arith)
              (λ h. rw read)
              (Decodes-string (burn_cases env wire) _ fits' 2 _ m.burn_from_address _ _ m refl
                (omega arith) refl (Decodes-nil (burn_cases env wire) _ m)))))

  unmarshal_force_transfer-marshal_force_transfer :
      (m : MsgForceTransfer) (bytes : Bytes)
      → IsSmall m.amount.amount
      → marshal_force_transfer env wire m ≡ ok bytes
      → length bytes < 2 ^ 63
      → unmarshal_force_transfer env wire bytes ≡ ok m
  unfolding marshal_force_transfer unmarshal_force_transfer
  unmarshal_force_transfer-marshal_force_transfer m bytes kept written fits =
      let (c, ec, e) = >>=-eq-ok (wire.coin_marshal m.amount) _ written in
      let shape = sym (ok-injective e) in
      let fits' = rw shape at fits in
      let read = laws.coin_read m.amount c kept ec in
      rw shape (
        unmarshal_into-Decodes (force_transfer_cases env wire) _ m _ (
          Decodes-string (force_transfer_cases env wire) _ fits' 0 _ m.sender _ _ m refl
            (omega arith) refl
            (Decodes-message (force_transfer_cases env wire) _ fits' 1 _ c _ _ _ m refl
              (omega arith) (λ h. rw read)
              (Decodes-string (force_transfer_cases env wire) _ fits' 2 _ m.transfer_from_address _
                _ m refl (omega arith) refl
                (Decodes-string (force_transfer_cases env wire) _ fits' 3 _ m.transfer_to_address _
                  _ m refl (omega arith) refl (Decodes-nil (force_transfer_cases env wire) _ m))))))

  unmarshal_set_denom_metadata-marshal_set_denom_metadata :
      (m : MsgSetDenomMetadata env) (bytes : Bytes)
      → WasDecoded env wire m.metadata
      → marshal_set_denom_metadata env wire m ≡ ok bytes
      → length bytes < 2 ^ 63
      → unmarshal_set_denom_metadata env wire bytes ≡ ok m
  unfolding marshal_set_denom_metadata unmarshal_set_denom_metadata
  unmarshal_set_denom_metadata-marshal_set_denom_metadata m bytes kept written fits =
      let (c, ec, e) = >>=-eq-ok (wire.metadata_marshal m.metadata) _ written in
      let shape = sym (ok-injective e) in
      let fits' = rw shape at fits in
      let read = laws.metadata_read m.metadata c kept ec in
      rw shape (
        unmarshal_into-Decodes (set_denom_metadata_cases env wire) _ m _ (
          Decodes-string (set_denom_metadata_cases env wire) _ fits' 0 _ m.sender _ _ m refl
            (omega arith) refl
            (Decodes-message (set_denom_metadata_cases env wire) _ fits' 1 _ c _ _ _ m refl
              (omega arith) (λ h. rw read) (Decodes-nil (set_denom_metadata_cases env wire) _ m))))

  -- Unmarshal of the type of a message gives back the message that Marshal wrote, if its amount is
  -- set and small, its metadata was itself decoded, and the encoding is no longer than a Go slice
  -- can be.
  pub unmarshal_msg-marshal_msg :
      (m : Msg env) (bytes : Bytes)
      → Survives env wire m
      → marshal_msg env wire m ≡ ok bytes
      → length bytes < 2 ^ 63
      → unmarshal_msg env wire (go_type env m) bytes ≡ ok m
  unfolding marshal_msg unmarshal_msg
  unmarshal_msg-marshal_msg (Msg.create_denom m) bytes kept written fits =
      let shape = sym (ok-injective written) in
      let fits' = rw shape at fits in
      rw (shape, unmarshal_create_denom-marshal_create_denom m fits')
  unmarshal_msg-marshal_msg (Msg.mint m) bytes kept written fits =
      rw (unmarshal_mint-marshal_mint m bytes kept written fits)
  unmarshal_msg-marshal_msg (Msg.burn m) bytes kept written fits =
      rw (unmarshal_burn-marshal_burn m bytes kept written fits)
  unmarshal_msg-marshal_msg (Msg.force_transfer m) bytes kept written fits =
      rw (unmarshal_force_transfer-marshal_force_transfer m bytes kept written fits)
  unmarshal_msg-marshal_msg (Msg.change_admin m) bytes kept written fits =
      let shape = sym (ok-injective written) in
      let fits' = rw shape at fits in
      rw (shape, unmarshal_change_admin-marshal_change_admin m fits')
  unmarshal_msg-marshal_msg (Msg.set_denom_metadata m) bytes kept written fits =
      rw (unmarshal_set_denom_metadata-marshal_set_denom_metadata m bytes kept written fits)
