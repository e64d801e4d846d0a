-- ===== src/Keeper/Admins/Laws.antt =====
-- What setAuthorityMetadata writes, GetAuthorityMetadata reads.
use tokenfactory.Base.{
  ℕ, suc, zero, ◌+◌, ◌^◌, ◌≤◌, ◌<◌, ◌/◌, arith, ◌≡◌, ◌≢◌, refl, sym, ap, ◌∙◌, [], length,
  length-append, ◌⊎◌, inl, inr,
}
use tokenfactory.Base.Bytes.{Bytes, same-cases}
use tokenfactory.Base.Outcome.{Outcome, ok, err, panic, >>=-eq-ok}
use tokenfactory.Env.{Env, StoreLaws, AddressLaws, kv_get-kv_set_self, kv_get-kv_set_ne}
use tokenfactory.Types.Keys.{authority_key}
use tokenfactory.Types.Keys.Separation.{authority_key-injective}
use tokenfactory.Types.Authority.{DenomAuthorityMetadata, authority_validate}
use tokenfactory.Codec.Varint.{encode_groups, encode_varint}
use tokenfactory.Codec.Authority.{marshal, unmarshal}
use tokenfactory.Codec.Laws.RoundTrip.{unmarshal-marshal}
use tokenfactory.Keeper.Exec.{after, modify}
use tokenfactory.Keeper.State.{State}
use tokenfactory.Keeper.Admins.{or_nil, get_authority_metadata, set_authority_metadata}

length-encode_groups : (k v : ℕ) → length (encode_groups k v) ≤ k + 1
unfolding encode_groups
length-encode_groups zero v = omega arith
length-encode_groups (suc k) v = ground (arith, length-encode_groups k (v / 128))

length-encode_varint : (v : ℕ) → length (encode_varint v) ≤ 10
unfolding encode_varint
length-encode_varint v = omega (arith, length-encode_groups 9 v)

length-marshal : (m : DenomAuthorityMetadata) → length (marshal m) ≤ 11 + length m.admin
unfolding marshal
length-marshal m = ground (
  arith,
  length-append (encode_varint (length m.admin)) m.admin,
  length-encode_varint (length m.admin),
)

module _ (env : Env) where
  -- The state with the metadata written.
  abbrev pub written : Bytes → DenomAuthorityMetadata → State env → State env
  written d m s = record s { store = env.kv_set (authority_key d) (marshal m) s.store }

  pub get-at_key :
      (d : Bytes) (s : State env)
      → get_authority_metadata env d s ≡ unmarshal (or_nil (env.kv_get s.store (authority_key d)))
  unfolding get_authority_metadata authority_key
  get-at_key d s = refl

  -- The metadata of a denom rests on what stands under its key.
  pub get_authority_metadata-same_key :
      (d : Bytes) (s t : State env)
      → env.kv_get t.store (authority_key d) ≡ env.kv_get s.store (authority_key d)
      → get_authority_metadata env d t ≡ get_authority_metadata env d s
  get_authority_metadata-same_key d s t h =
      get-at_key d t ∙ ap (λ b. unmarshal (or_nil b)) h ∙ sym (get-at_key d s)

  -- A valid metadata is written and nothing else; an invalid one is not.
  pub set_authority_metadata_lem :
      (d : Bytes) (m : DenomAuthorityMetadata) (s : State env)
      → set_authority_metadata env d m s
        ≡ after (λ _. modify (written d m)) (authority_validate env m, s)
  unfolding set_authority_metadata authority_key
  set_authority_metadata_lem d m s = refl

  pub set_authority_metadata_ok :
      (d : Bytes) (m : DenomAuthorityMetadata) (s t : State env) {u : Unit {0}}
      → set_authority_metadata env d m s ≡ (ok u, t)
      → (authority_validate env m ≡ ok tt) × (t ≡ written d m s)
  set_authority_metadata_ok d m s t h =
      go (authority_validate env m) refl (sym (set_authority_metadata_lem d m s) ∙ h)
    where
      go :
          (r : Outcome (Unit {0})) {u : Unit {0}}
          → authority_validate env m ≡ r
          → after (λ _. modify (written d m)) (r, s) ≡ (ok u, t)
          → (authority_validate env m ≡ ok tt) × (t ≡ written d m s)
      go (ok _) e k = (e, sym (ap (λ r. r.1) k))
      go (err x) e k = cc
      go (panic x) e k = cc

  -- What a valid metadata's admin is: none, or a text that decodes.
  authority_validate_cases :
      (m : DenomAuthorityMetadata)
      → authority_validate env m ≡ ok tt
      → (m.admin ≡ []) ⊎ ((a : Bytes) × (env.address_from_bech32 m.admin ≡ ok a))
  unfolding authority_validate
  authority_validate_cases m h = elim (same-cases m.admin []) [
    | inl (e, _) ↦ inl e
    | inr (_, f) ↦
        let decoded = >>=-eq-ok (env.address_from_bech32 m.admin) _ (rw f at h) in
        inr (decoded.0, decoded.1)
  ]

  -- An address is short, and so is what encodes a valid metadata.
  valid_fits :
      (laws : AddressLaws env) (m : DenomAuthorityMetadata)
      → authority_validate env m ≡ ok tt
      → length (marshal m) < 2 ^ 63
  valid_fits laws m h = elim (authority_validate_cases m h) [
    | inl e ↦ omega (arith, length-marshal m, ap (λ (b : Bytes). length b) e)
    | inr (a, e) ↦ omega (arith, length-marshal m, laws.short m.admin e)
  ]

  module _ (stores : StoreLaws env) where
    -- The metadata of every denom behind a write.
    pub get-written :
        (laws : AddressLaws env) (d : Bytes) (m : DenomAuthorityMetadata) (s : State env)
        → authority_validate env m ≡ ok tt
        → get_authority_metadata env d (written d m s) ≡ ok m
    get-written laws d m s v =
        get-at_key d (written d m s)
        ∙ ap (λ b. unmarshal (or_nil b))
            (kv_get-kv_set_self stores (authority_key d) (marshal m) s.store)
        ∙ unmarshal-marshal m (valid_fits laws m v)

    pub get-written_ne :
        (d e : Bytes) (m : DenomAuthorityMetadata) (s : State env)
        → d ≢ e
        → get_authority_metadata env e (written d m s) ≡ get_authority_metadata env e s
    get-written_ne d e m s n =
        get-at_key e (written d m s)
        ∙ ap (λ b. unmarshal (or_nil b))
            (kv_get-kv_set_ne stores (authority_key d) (marshal m) s.store (authority_key e)
              (λ p. n (authority_key-injective d e p)))
        ∙ sym (get-at_key e s)

-- GetAuthorityMetadata returns what a successful setAuthorityMetadata has stored, and for every
-- other denom what it returned before.
pub get_authority_metadata-set_authority_metadata :
    (env : Env) (stores : StoreLaws env) (laws : AddressLaws env) (d : Bytes)
    (m : DenomAuthorityMetadata) (s t : State env)
    → set_authority_metadata env d m s ≡ (ok tt, t)
    → (get_authority_metadata env d t ≡ ok m)
      × ((e : Bytes) → d ≢ e → get_authority_metadata env e t ≡ get_authority_metadata env e s)
get_authority_metadata-set_authority_metadata env stores laws d m s t h =
    let (valid, e) = set_authority_metadata_ok env d m s t h in
    (
      rw e (get-written env stores laws d m s valid),
      (λ x n. rw e (get-written_ne env stores d x m s n)),
    )
