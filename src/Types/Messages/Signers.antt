-- ===== src/Types/Messages/Signers.antt =====
-- Who signs a valid message.
use tokenfactory.Base.{◌≡◌, ◌≢◌, sym, ap, ◌∙◌, [], ◌∷◌}
use tokenfactory.Base.Bytes.{Bytes}
use tokenfactory.Base.Outcome
use tokenfactory.Base.Outcome.{
  Outcome, ok, err, panic, IsErr, invalid_address, >>=-eq-ok, wrap-eq-ok,
}
use tokenfactory.Env.{Env, AddressLaws}
use tokenfactory.Types.Messages.{
  Msg, MsgChangeAdmin, sender_of, check_address, create_denom_validate_basic, mint_validate_basic,
  burn_validate_basic, force_transfer_validate_basic, change_admin_validate_basic,
  set_denom_metadata_validate_basic, validate_basic, address_or_nil, get_signers,
}

module _ (env : Env) where
  -- The text is an address.
  abbrev pub Decodes : Bytes → Type 0
  Decodes s = (a : Bytes) × (env.address_from_bech32 s ≡ ok a)

  pub check_address_ok : (s : Bytes) → check_address env s ≡ ok tt → Decodes s
  unfolding check_address
  check_address_ok s h =
      let (a, e, _) = >>=-eq-ok (Outcome.wrap invalid_address (env.address_from_bech32 s)) _ h in
      (a, wrap-eq-ok invalid_address _ e)

  -- A check that goes on behind the check of the sender.
  first :
      {A : Type 0} (s : Bytes) (k : Unit {0} → Outcome A) {b : A}
      → Outcome.◌>>=◌ (check_address env s) k ≡ ok b
      → Decodes s
  first s k h = let (_, e, _) = >>=-eq-ok (check_address env s) k h in check_address_ok s e

  pub sender-Decodes : (m : Msg env) → validate_basic env m ≡ ok tt → Decodes (sender_of env m)
  unfolding validate_basic create_denom_validate_basic mint_validate_basic burn_validate_basic
      force_transfer_validate_basic change_admin_validate_basic set_denom_metadata_validate_basic
  sender-Decodes (Msg.create_denom m) h = first m.sender _ h
  sender-Decodes (Msg.mint m) h = first m.sender _ h
  sender-Decodes (Msg.burn m) h = first m.sender _ h
  sender-Decodes (Msg.force_transfer m) h = first m.sender _ h
  sender-Decodes (Msg.change_admin m) h = first m.sender _ h
  sender-Decodes (Msg.set_denom_metadata m) h = first m.sender _ h

  pub Decodes_nonempty : (laws : AddressLaws env) (x : Bytes) → Decodes x → x ≢ []
  Decodes_nonempty laws x (a, found) e =
      let (y, fails) = laws.empty in
      let clash : err y ≡ ok a = sym fails ∙ ap env.address_from_bech32 (sym e) ∙ found in cc

  pub sender_nonempty :
      (laws : AddressLaws env) (m : Msg env) → validate_basic env m ≡ ok tt → sender_of env m ≢ []
  sender_nonempty laws m h = Decodes_nonempty laws (sender_of env m) (sender-Decodes m h)

  -- A message that passes its stateless check has exactly one signer, the address of its sender.
  pub get_signers-validate_basic :
      (m : Msg env)
      → validate_basic env m ≡ ok tt
      → (a : Bytes) × (env.address_from_bech32 (sender_of env m) ≡ ok a)
        × (get_signers env m ≡ ok (a ∷ []))
  unfolding get_signers address_or_nil
  get_signers-validate_basic m h = let (a, e) = sender-Decodes m h in (a, e, rw e)

  -- The new admin of a valid ChangeAdmin is an address.
  pub new_admin-Decodes :
      (m : MsgChangeAdmin) → validate_basic env (Msg.change_admin m) ≡ ok tt → Decodes m.new_admin
  unfolding validate_basic change_admin_validate_basic
  new_admin-Decodes m h =
      let (_, _, later) = >>=-eq-ok (check_address env m.sender) _ h in first m.new_admin _ later
