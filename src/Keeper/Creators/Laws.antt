-- ===== src/Keeper/Creators/Laws.antt =====
-- What the index of a creator lists.
use tokenfactory.Base.{
  ◌≡◌, ◌↔◌, refl, sym, ap, ◌∙◌, ◌⊎◌, inl, inr, some, ◌++◌, Elem, Elem-map, false,
}
use tokenfactory.Base.Bytes.{Bytes, contains, same-cases}
use tokenfactory.Env.{Env, StoreLaws, kv_get-kv_set_self, kv_get-kv_set_ne}
use tokenfactory.Types.Keys.{creator_prefix, authority_key}
use tokenfactory.Types.Keys.Separation.{bar, creator_key-injective, authority_key-ne-creator_key}
use tokenfactory.Types.Authority.{DenomAuthorityMetadata}
use tokenfactory.Keeper.State.{State}
use tokenfactory.Keeper.Admins.Laws.{written}
use tokenfactory.Keeper.Creators.{get_denoms_from_creator}
use tokenfactory.Keeper.CreateDenom.Laws.{listed}

module _ {env : Env} (stores : StoreLaws env) where
  -- An index lists the denoms that stand under its prefix.
  pub Elem-get_denoms_from_creator :
      (c d : Bytes) (s : State env)
      → Elem d (get_denoms_from_creator env c s)
        ↔ ((v : Bytes) × (env.kv_get s.store (creator_prefix c ++ d) ≡ some v))
  unfolding get_denoms_from_creator
  Elem-get_denoms_from_creator c d s =
      let (there, back) =
        Elem-map (λ (e : Bytes × Bytes). e.0) d (env.kv_iterate (creator_prefix c) s.store) in
      (
        (λ h.
            let (e, i, p) = there h in
            (
              e.1,
              ap (λ x. env.kv_get s.store (creator_prefix c ++ x)) p
                  ∙ (stores.elem-iterate (creator_prefix c) e.0 e.1 s.store).0 i,
            )),
        (λ h. back ((d, h.0), (stores.elem-iterate (creator_prefix c) d h.0 s.store).1 h.1, refl)),
      )

  -- Authority metadata stands beside the indices.
  pub get_denoms_from_creator-written :
      (c e d : Bytes) (a : DenomAuthorityMetadata) (s : State env)
      → Elem e (get_denoms_from_creator env c (written env d a s))
        ↔ Elem e (get_denoms_from_creator env c s)
  get_denoms_from_creator-written c e d a s =
      let same =
        kv_get-kv_set_ne stores (authority_key d) _ s.store (creator_prefix c ++ e)
          (authority_key-ne-creator_key d c e) in
      let (there, back) = Elem-get_denoms_from_creator c e (written env d a s) in
      let (there', back') = Elem-get_denoms_from_creator c e s in
      (
        (λ h. let (v, p) = there h in back' (v, sym same ∙ p)),
        (λ h. let (v, p) = there' h in back (v, same ∙ p)),
      )

  -- A creator's index grows by the denom, and no other one does.
  pub get_denoms_from_creator-listed :
      (c d c' e : Bytes) (s : State env)
      → contains bar c ≡ false
      → contains bar c' ≡ false
      → Elem e (get_denoms_from_creator env c' (listed env c d s))
        ↔ (((c ≡ c') × (d ≡ e)) ⊎ Elem e (get_denoms_from_creator env c' s))
  get_denoms_from_creator-listed c d c' e s nb nb' =
      let (there, back) = Elem-get_denoms_from_creator c' e (listed env c d s) in
      let (there', back') = Elem-get_denoms_from_creator c' e s in
      elim (same-cases (creator_prefix c ++ d) (creator_prefix c' ++ e)) [
        | inl (p, _) ↦ (
          (λ h. inl (creator_key-injective c d c' e nb nb' p)),
          (λ h. back (
            d,
            ap (λ k. env.kv_get (listed env c d s).store k) (sym p)
                ∙ kv_get-kv_set_self stores (creator_prefix c ++ d) d s.store,
          )),
        )
        | inr (n, _) ↦
            let same =
              kv_get-kv_set_ne stores (creator_prefix c ++ d) d s.store (creator_prefix c' ++ e)
                n in
            (
              (λ h. let (v, p) = there h in inr (back' (v, sym same ∙ p))),
              (λ h. elim h [
                | inl (p, q) ↦
                    absurd
                      (n (ap (λ x. creator_prefix x ++ d) p ∙ ap (λ x. creator_prefix c' ++ x) q))
                | inr k ↦ let (v, p) = there' k in back (v, same ∙ p)
              ]),
            )
      ]

  -- The indices rest on the store alone.
  pub get_denoms_from_creator-same_store :
      (c e : Bytes) (s t : State env)
      → t.store ≡ s.store
      → get_denoms_from_creator env c t ≡ get_denoms_from_creator env c s
  unfolding get_denoms_from_creator
  get_denoms_from_creator-same_store c e s t h = rw h
