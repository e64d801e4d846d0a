-- ===== src/Keeper/Genesis/Single.antt =====
-- What the import of one denom leaves behind.
use tokenfactory.Base.{
  ◌≡◌, ◌≢◌, ◌↔◌, ◌⊎◌, sym, ap, subst, ◌∙◌, [], ◌∷◌, ◌++◌, false, Elem, inl, inr, some,
  some-injective, Option-cases,
}
use tokenfactory.Base.Bytes.{Bytes, contains, same-cases}
use tokenfactory.Base.Outcome.{ok}
use tokenfactory.Env.{Env, StoreLaws, AddressLaws, BankLaws, kv_get-kv_set_self, kv_get-kv_set_ne}
use tokenfactory.Types.Keys.{authority_key, creator_prefix, creators_prefix}
use tokenfactory.Types.Keys.Separation.{
  bar, authority_key-ne-creator_key, authority_key-ne-creators_key,
}
use tokenfactory.Types.Authority.{DenomAuthorityMetadata}
use tokenfactory.Types.Genesis.{GenesisDenom}
use tokenfactory.Codec.Authority.{marshal}
use tokenfactory.Keeper.State.{State, Known}
use tokenfactory.Keeper.Admins.{get_authority_metadata}
use tokenfactory.Keeper.Admins.Laws.{
  written, get-written, get-written_ne, get_authority_metadata-same_key,
}
use tokenfactory.Keeper.Creators.{get_denoms_from_creator}
use tokenfactory.Keeper.Creators.Laws.{
  get_denoms_from_creator-written, get_denoms_from_creator-listed,
  get_denoms_from_creator-same_store,
}
use tokenfactory.Keeper.CreateDenom.{register_metadata}
use tokenfactory.Keeper.CreateDenom.Laws.{
  listed, register_metadata_new, register_metadata_old, register_metadata_cases,
}
use tokenfactory.Keeper.Invariant.{IsWellFormed}
use tokenfactory.Keeper.Invariant.Writes.{IsWellFormed-written, IsWellFormed-listed}
use tokenfactory.Keeper.Invariant.Calls.{Step}
use tokenfactory.Keeper.Invariant.Creation.{Step-register_metadata}
use tokenfactory.Keeper.Genesis.Valid.{ImportLaws, IsValidDenom, imported}

module _ {env : Env} where
  -- Registration touches neither the store nor the parameters.
  register_metadata_store :
      (d : Bytes) (s : State env) → (register_metadata env d s).store ≡ s.store
  register_metadata_store d s = elim (Option-cases (env.get_denom_metadata s.chain d)) [
    | inl e ↦ ap (λ (x : State env). x.store) (register_metadata_new env d s e)
    | inr (m, e) ↦ ap (λ (x : State env). x.store) (register_metadata_old env d s e)
  ]

  register_metadata_params :
      (laws : ImportLaws env) (d : Bytes) (s : State env)
      → env.get_param_set (register_metadata env d s).chain ≡ env.get_param_set s.chain
  register_metadata_params laws d s = elim (Option-cases (env.get_denom_metadata s.chain d)) [
    | inl e ↦
        ap (λ (x : State env). env.get_param_set x.chain) (register_metadata_new env d s e)
        ∙ laws.params_kept (env.new_metadata ((d, 0) ∷ []) d) s.chain
    | inr (m, e) ↦
        ap (λ (x : State env). env.get_param_set x.chain) (register_metadata_old env d s e)
  ]

  -- From `s` to `t` one denom of a creator has come in.
  pub record Adds (s t : State env) (c d : Bytes) (m : DenomAuthorityMetadata) : Type 0 where
    pub step : Step env s t
    pub known : Known env t d
    pub admin : get_authority_metadata env d t ≡ ok m
    pub others :
        (e : Bytes) → d ≢ e → get_authority_metadata env e t ≡ get_authority_metadata env e s
    pub index :
        (c' e : Bytes)
        → contains bar c' ≡ false
        → Elem e (get_denoms_from_creator env c' t)
          ↔ (((c ≡ c') × (d ≡ e)) ⊎ Elem e (get_denoms_from_creator env c' s))
    pub entries :
        (k v : Bytes)
        → env.kv_get t.store (creators_prefix ++ k) ≡ some v
        → (v ≡ d) ⊎ (env.kv_get s.store (creators_prefix ++ k) ≡ some v)
    pub params : env.get_param_set t.chain ≡ env.get_param_set s.chain

module _ {env : Env} (stores : StoreLaws env) (addresses : AddressLaws env) (bank : BankLaws env)
    (laws : ImportLaws env) (g : GenesisDenom) (v : IsValidDenom env g) (s : State env) where
  abbrev r : State env
  r = register_metadata env g.denom s

  abbrev first : State env
  first = written env g.denom (record { admin = v.creator }) r

  abbrev next : State env
  next = listed env v.creator g.denom first

  abbrev last : State env
  last = imported env v.creator g s

  imported_keeps : IsWellFormed env s → IsWellFormed env last
  imported_keeps w =
      let (m, known) = register_metadata_cases env bank g.denom s in
      IsWellFormed-written stores addresses g.denom g.authority_metadata next v.valid known (
        IsWellFormed-listed stores addresses v.creator g.denom first v.no_bar
          (kv_get-kv_set_self stores (authority_key g.denom)
            (marshal (record { admin = v.creator })) r.store)
          (IsWellFormed-written stores addresses g.denom (record { admin = v.creator }) r
            v.creator_valid known ((Step-register_metadata bank g.denom s).keeps w)))

  -- No creators' entry stands under a key of authority metadata.
  entry_beside :
      (k x : Bytes) (m : DenomAuthorityMetadata) (t : State env)
      → env.kv_get (written env g.denom m t).store (creators_prefix ++ k)
        ≡ env.kv_get t.store (creators_prefix ++ k)
  entry_beside k x m t =
      kv_get-kv_set_ne stores (authority_key g.denom) (marshal m) t.store (creators_prefix ++ k)
        (authority_key-ne-creators_key g.denom k)

  imported_entries :
      (k x : Bytes)
      → env.kv_get last.store (creators_prefix ++ k) ≡ some x
      → (x ≡ g.denom) ⊎ (env.kv_get s.store (creators_prefix ++ k) ≡ some x)
  imported_entries k x h =
      let h1 : env.kv_get next.store (creators_prefix ++ k) ≡ some x =
        sym (entry_beside k x g.authority_metadata next) ∙ h in
      elim (same-cases (creator_prefix v.creator ++ g.denom) (creators_prefix ++ k)) [
        | inl (p, _) ↦ inl (
            sym (
              some-injective g.denom x (
                sym (
                  kv_get-kv_set_self stores (creator_prefix v.creator ++ g.denom) g.denom
                    first.store)
                ∙ ap (env.kv_get next.store) p
                ∙ h1)))
        | inr (n, _) ↦ inr (
            ap (λ y. env.kv_get y (creators_prefix ++ k)) (sym (register_metadata_store g.denom s))
            ∙ sym (entry_beside k x (record { admin = v.creator }) r)
            ∙ sym (
                kv_get-kv_set_ne stores (creator_prefix v.creator ++ g.denom) g.denom first.store
                  (creators_prefix ++ k) n)
            ∙ h1)
      ]

  imported_index :
      (c e : Bytes)
      → contains bar c ≡ false
      → Elem e (get_denoms_from_creator env c last)
        ↔ (((v.creator ≡ c) × (g.denom ≡ e)) ⊎ Elem e (get_denoms_from_creator env c s))
  imported_index c e nb =
      let (a, a') = get_denoms_from_creator-written stores c e g.denom g.authority_metadata next in
      let (b, b') = get_denoms_from_creator-listed stores v.creator g.denom c e first v.no_bar nb in
      let (d, d') =
        get_denoms_from_creator-written stores c e g.denom (record { admin = v.creator }) r in
      let same =
        get_denoms_from_creator-same_store stores c e s r (register_metadata_store g.denom s) in
      (
        (λ h. elim (b (a h)) [ inl p ↦ inl p | inr i ↦ inr (subst (Elem e) same (d i)) ]),
        (λ h. a' (b' (elim h [ inl p ↦ inl p | inr i ↦ inr (d' (subst (Elem e) (sym same) i)) ]))),
      )

  imported_others :
      (e : Bytes) → g.denom ≢ e → get_authority_metadata env e last ≡ get_authority_metadata env e s
  imported_others e n =
      get-written_ne env stores g.denom e g.authority_metadata next n
      ∙ get_authority_metadata-same_key env e first next (
          kv_get-kv_set_ne stores (creator_prefix v.creator ++ g.denom) g.denom first.store
            (authority_key e) (λ p. authority_key-ne-creator_key e v.creator g.denom (sym p)))
      ∙ get-written_ne env stores g.denom e (record { admin = v.creator }) r n
      ∙ get_authority_metadata-same_key env e s r
          (ap (λ y. env.kv_get y (authority_key e)) (register_metadata_store g.denom s))

  -- The import of a valid denom registers it with the bank, stores its authority metadata, adds it to
  -- the index of its creator, and leaves all else.
  pub imported-Adds : Adds s last v.creator g.denom g.authority_metadata
  imported-Adds = record {
    step = record {
      keeps = imported_keeps;
      knows = λ d k. (Step-register_metadata bank g.denom s).knows d k;
    };
    known = register_metadata_cases env bank g.denom s;
    admin = get-written env stores addresses g.denom g.authority_metadata next v.valid;
    others = imported_others;
    index = imported_index;
    entries = imported_entries;
    params = register_metadata_params laws g.denom s;
  }
