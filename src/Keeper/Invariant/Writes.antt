-- ===== src/Keeper/Invariant/Writes.antt =====
-- The writes of the module keep the invariant.
use tokenfactory.Base.{◌≡◌, sym, ap, subst, ◌∙◌, some, some-injective, ◌++◌, inl, inr, false}
use tokenfactory.Base.Bytes.{Bytes, same, contains, same-cases}
use tokenfactory.Base.Outcome.{ok}
use tokenfactory.Env.{Env, StoreLaws, AddressLaws, kv_get-kv_set_self, kv_get-kv_set_ne}
use tokenfactory.Types.Keys.{authority_key, creator_prefix}
use tokenfactory.Types.Keys.Separation.{
  bar, authority_key-ne-creator_key, authority_key-injective, creator_key-injective,
}
use tokenfactory.Types.Authority.{DenomAuthorityMetadata, authority_validate}
use tokenfactory.Keeper.State.{State}
use tokenfactory.Keeper.Admins.{get_authority_metadata}
use tokenfactory.Keeper.Admins.Laws.{
  written, get-written, get-written_ne, get_authority_metadata-same_key,
}
use tokenfactory.Codec.Authority.{marshal}
use tokenfactory.Keeper.CreateDenom.Laws.{listed}
use tokenfactory.Keeper.Invariant.{IsWellFormed}

module _ {env : Env} where
  -- A state with the same store, over a chain in which no denom metadata is missing.
  pub IsWellFormed-chain :
      (s t : State env)
      → t.store ≡ s.store
      → ((d : Bytes) (m : env.Metadata)
          → env.get_denom_metadata s.chain d ≡ some m
          → (m' : env.Metadata) × (env.get_denom_metadata t.chain d ≡ some m'))
      → IsWellFormed env s
      → IsWellFormed env t
  IsWellFormed-chain s t same keeps w =
      let at : (k : Bytes) → env.kv_get t.store k ≡ env.kv_get s.store k =
        λ k. ap (λ x. env.kv_get x k) same in
      record {
        registered = λ d b h.
            let (m, known) = w.registered d b (sym (at (authority_key d)) ∙ h) in keeps d m known;
        indexed = λ c d v nb h.
            let (e, stored) = w.indexed c d v nb (sym (at (creator_prefix c ++ d)) ∙ h) in
            (e, (stored.0, at (authority_key d) ∙ stored.1));
        readable = λ d.
            let (m, found, valid) = w.readable d in
            (m, get_authority_metadata-same_key env d s t (at (authority_key d)) ∙ found, valid);
      }

module _ {env : Env} (stores : StoreLaws env) where
  -- Authority metadata that was stored is still there behind a write for some denom.
  stored-written :
      (d e : Bytes) (a : DenomAuthorityMetadata) (s : State env) {b : Bytes}
      → env.kv_get s.store (authority_key e) ≡ some b
      → (b' : Bytes) × (env.kv_get (written env d a s).store (authority_key e) ≡ some b')
  stored-written d e a s {b} h = elim (same-cases d e) [
    | inl (p, _) ↦ (
      marshal a,
      ap (λ x. env.kv_get (written env d a s).store (authority_key x)) (sym p)
          ∙ kv_get-kv_set_self stores (authority_key d) (marshal a) s.store,
    )
    | inr (n, _) ↦ (
      b,
      kv_get-kv_set_ne stores (authority_key d) (marshal a) s.store (authority_key e)
            (λ q. n (authority_key-injective d e q))
          ∙ h,
    )
  ]

module _ {env : Env} (stores : StoreLaws env) (laws : AddressLaws env) where
  -- Valid authority metadata for a denom that the bank knows.
  pub IsWellFormed-written :
      (d : Bytes) (a : DenomAuthorityMetadata) (s : State env) {m : env.Metadata}
      → authority_validate env a ≡ ok tt
      → env.get_denom_metadata s.chain d ≡ some m
      → IsWellFormed env s
      → IsWellFormed env (written env d a s)
  IsWellFormed-written d a s {m} valid known w = record {
    registered = λ e b h. elim (same-cases d e) [
      | inl (p, _) ↦ (m, subst (λ x. env.get_denom_metadata s.chain x ≡ some m) p known)
      | inr (n, _) ↦ w.registered e b (
          sym (
            kv_get-kv_set_ne stores (authority_key d) (marshal a) s.store (authority_key e)
              (λ q. n (authority_key-injective d e q)))
          ∙ h)
    ];
    indexed = λ c e v nb h.
        let (p, stored) = w.indexed c e v nb (
          sym (
            kv_get-kv_set_ne stores (authority_key d) (marshal a) s.store (creator_prefix c ++ e)
              (authority_key-ne-creator_key d c e))
          ∙ h) in
        (p, stored-written stores d e a s stored.1);
    readable = λ e. elim (same-cases d e) [
      | inl (p, _) ↦ (
        a,
        ap (λ x. get_authority_metadata env x (written env d a s)) (sym p)
            ∙ get-written env stores laws d a s valid,
        valid,
      )
      | inr (n, _) ↦
          let (m', found, v) = w.readable e in (m', get-written_ne env stores d e a s n ∙ found, v)
    ];
  }

  -- A denom that has authority metadata, in a creator's index.
  pub IsWellFormed-listed :
      (c d : Bytes) (s : State env) {b : Bytes}
      → contains bar c ≡ false
      → env.kv_get s.store (authority_key d) ≡ some b
      → IsWellFormed env s
      → IsWellFormed env (listed env c d s)
  IsWellFormed-listed c d s {b} nb stored w =
      let at : (e : Bytes)
          → env.kv_get (listed env c d s).store (authority_key e)
            ≡ env.kv_get s.store (authority_key e) =
        λ e.
          kv_get-kv_set_ne stores (creator_prefix c ++ d) d s.store (authority_key e)
            (λ p. authority_key-ne-creator_key e c d (sym p)) in
      record {
        registered = λ e x h. w.registered e x (sym (at e) ∙ h);
        indexed = λ c' e v nb' h.
            elim (same-cases (creator_prefix c ++ d) (creator_prefix c' ++ e)) [
              | inl (p, _) ↦
                  let q : d ≡ e = (creator_key-injective c d c' e nb nb' p).1 in
                  let self =
                    sym (kv_get-kv_set_self stores (creator_prefix c ++ d) d s.store)
                    ∙ ap (λ k. env.kv_get (listed env c d s).store k) p
                    ∙ h in
                  (
                    sym (some-injective d v self) ∙ q,
                    (b, at e ∙ ap (λ x. env.kv_get s.store (authority_key x)) (sym q) ∙ stored),
                  )
              | inr (n, _) ↦
                  let (p, there) = w.indexed c' e v nb' (
                    sym (
                      kv_get-kv_set_ne stores (creator_prefix c ++ d) d s.store
                        (creator_prefix c' ++ e) n)
                    ∙ h) in
                  (p, (there.0, at e ∙ there.1))
            ];
        readable = λ e.
            let (m, found, valid) = w.readable e in
            (m, get_authority_metadata-same_key env e s (listed env c d s) (at e) ∙ found, valid);
      }
