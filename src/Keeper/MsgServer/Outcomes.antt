-- ===== src/Keeper/MsgServer/Outcomes.antt =====
-- What the queries show behind a message that went through.
use tokenfactory.Base.{
  ◌≡◌, ◌≢◌, ◌↔◌, sym, ap, subst, ◌∙◌, ◌⊎◌, inl, inr, ◌++◌, none, some, [], ◌∷◌, Elem, false,
}
use tokenfactory.Base.Bytes.{Bytes, contains}
use tokenfactory.Base.Outcome.{ok}
use tokenfactory.Env.{Env, StoreLaws, AddressLaws, BankLaws, DenomLaws, kv_get-kv_set_ne}
use tokenfactory.Types.Keys.{authority_key, creator_prefix}
use tokenfactory.Types.Keys.Separation.{bar, authority_key-ne-creator_key}
use tokenfactory.Types.Denoms.{get_token_denom}
use tokenfactory.Types.Denoms.RoundTrip.{get_token_denom-WasBuilt}
use tokenfactory.Types.Denoms.Bars.{WasBuilt-no_bar}
use tokenfactory.Types.Authority.{DenomAuthorityMetadata, authority_validate}
use tokenfactory.Types.Messages.{MsgCreateDenom, MsgChangeAdmin}
use tokenfactory.Codec.Authority.{marshal}
use tokenfactory.Keeper.State.{Known, State}
use tokenfactory.Keeper.Admins.{get_authority_metadata}
use tokenfactory.Keeper.Admins.Laws.{
  written, get-written, get-written_ne, get_authority_metadata-same_key,
}
use tokenfactory.Keeper.Creators.{get_denoms_from_creator}
use tokenfactory.Keeper.Creators.Laws.{
  get_denoms_from_creator-written, get_denoms_from_creator-listed,
  get_denoms_from_creator-same_store,
}
use tokenfactory.Keeper.CreateDenom.{register_metadata}
use tokenfactory.Keeper.CreateDenom.Laws.{listed, register_metadata_cases}
use tokenfactory.Keeper.CreateDenom.Metadata.{
  SameMetadata, charge_for_create_denom-KeepsMetadata, register_metadata_self, register_metadata_ne,
}
use tokenfactory.Keeper.MsgServer.{handle_create_denom, handle_change_admin}
use tokenfactory.Keeper.MsgServer.Atomic.{register_metadata-Foreign}
use tokenfactory.Keeper.MsgServer.Authority.{IsAdmin}
use tokenfactory.Keeper.MsgServer.Effects.{Created, handle_create_denom_ok, handle_change_admin_ok}

module _ (env : Env) (stores : StoreLaws env) (laws : AddressLaws env) where
  pub same_store-get_authority_metadata :
      (d : Bytes) (s t : State env)
      → t.store ≡ s.store
      → get_authority_metadata env d t ≡ get_authority_metadata env d s
  same_store-get_authority_metadata d s t e =
      get_authority_metadata-same_key env d s t (ap (λ x. env.kv_get x (authority_key d)) e)

  get_authority_metadata-listed :
      (c d e : Bytes) (s : State env)
      → get_authority_metadata env e (listed env c d s) ≡ get_authority_metadata env e s
  get_authority_metadata-listed c d e s =
      get_authority_metadata-same_key env e s (listed env c d s) (
        kv_get-kv_set_ne stores (creator_prefix c ++ d) d s.store (authority_key e)
          (λ p. authority_key-ne-creator_key e c d (sym p)))

  -- The store behind a CreateDenom that went through: two writes on top of what it found.
  store_after :
      (m : MsgCreateDenom) (d : Bytes) (s t u : State env)
      → Created env m.sender m.subdenom d s u
      → t.store ≡ u.store
      → t.store ≡ (listed env m.sender d (written env d (record { admin = m.sender }) s)).store
  store_after m d s t u c e =
      let before : (register_metadata env d c.mid).store ≡ s.store =
        ((register_metadata-Foreign env d).at c.mid).store ∙ c.charged.store in
      e
      ∙ ap (λ (q : State env). q.store) c.result
      ∙ ap
          (λ x.
            env.kv_set (creator_prefix m.sender ++ d) d
              (env.kv_set (authority_key d) (marshal (record { admin = m.sender })) x))
          before

-- A CreateDenom that goes through answers with the denom that GetTokenDenom builds, of which the bank had
-- no metadata before, and now has those that the module makes for it; the bank's metadata of no other
-- denom have changed. Its admin is the sender, and no other denom's authority metadata has changed. The
-- index of the sender lists it, beside what it listed before, and the index of no other creator without
-- "|" in its name has changed. Nothing is said of the coins that the charge moves.
pub handle_create_denom-effect :
    (env : Env) (stores : StoreLaws env) (laws : AddressLaws env) (bank : BankLaws env)
    (denoms : DenomLaws env) (m : MsgCreateDenom) (d : Bytes) (s t : State env)
    → handle_create_denom env m s ≡ (ok d, t)
    → (get_token_denom env m.sender m.subdenom ≡ ok d)
      × (env.get_denom_metadata s.chain d ≡ none)
      × Known env t d
      × IsAdmin env t d m.sender
      × ((e : Bytes) → d ≢ e → get_authority_metadata env e t ≡ get_authority_metadata env e s)
      × ((c e : Bytes)
          → contains bar c ≡ false
          → Elem e (get_denoms_from_creator env c t)
            ↔ (((m.sender ≡ c) × (d ≡ e)) ⊎ Elem e (get_denoms_from_creator env c s)))
      × (env.get_denom_metadata t.chain d ≡ some (env.new_metadata ((d, 0) ∷ []) d))
      × ((e : Bytes) → d ≢ e → env.get_denom_metadata t.chain e ≡ env.get_denom_metadata s.chain e)
handle_create_denom-effect env stores laws bank denoms m d s t h =
    let (u, c, same_store, same_chain) = handle_create_denom_ok env m d s t h in
    let a : DenomAuthorityMetadata = record { admin = m.sender } in
    let w : State env = written env d a s in
    let v : State env = listed env m.sender d w in
    let after = store_after env stores laws m d s t u c same_store in
    let (k, known) = register_metadata_cases env bank d c.mid in
    let charge =
      subst (λ x. SameMetadata env s x) (sym c.charge)
        ((charge_for_create_denom-KeepsMetadata env bank m.sender).at s) in
    let unknown = charge.at d ∙ c.new.unknown in
    let here : (e : Bytes)
        → env.get_denom_metadata t.chain e
          ≡ env.get_denom_metadata (register_metadata env d c.mid).chain e =
      λ e.
        ap (λ x. env.get_denom_metadata x e)
          (same_chain ∙ ap (λ (q : State env). q.chain) c.result) in
    let nb =
      WasBuilt-no_bar denoms ((get_token_denom-WasBuilt env m.sender m.subdenom d).0 c.new.built) in
    let reads : (e : Bytes) → get_authority_metadata env e t ≡ get_authority_metadata env e w = λ e.
      same_store-get_authority_metadata env stores laws e v t after
      ∙ get_authority_metadata-listed env stores laws m.sender d e w in
    (
      c.new.built,
      c.new.unknown,
      (
        k,
        ap (λ x. env.get_denom_metadata x d) (same_chain ∙ ap (λ (q : State env). q.chain) c.result)
            ∙ known,
      ),
      reads d ∙ get-written env stores laws d a s c.valid,
      (λ e n. reads e ∙ get-written_ne env stores d e a s n),
      (λ x e nb'.
          let (there, back) = get_denoms_from_creator-listed stores m.sender d x e w nb nb' in
          let (down, up) = get_denoms_from_creator-written stores x e d a s in
          let same = get_denoms_from_creator-same_store stores x e v t after in
          (
            (λ i. elim (there (subst (λ l. Elem e l) same i)) [
              | inl p ↦ inl p
              | inr i' ↦ inr (down i')
            ]),
            (λ i.
                subst (λ l. Elem e l) (sym same)
                  (back (elim i [ inl p ↦ inl p | inr i' ↦ inr (up i') ]))),
          )),
      here d ∙ register_metadata_self env bank d c.mid unknown,
      (λ e n. here e ∙ register_metadata_ne env bank d e c.mid unknown n ∙ charge.at e),
    )

-- A ChangeAdmin that goes through was sent by the admin. Behind it the admin is the new one, which is
-- an address or empty; no other denom's authority metadata, no creator's index and nothing of the rest
-- of the chain has changed.
pub handle_change_admin-effect :
    (env : Env) (stores : StoreLaws env) (laws : AddressLaws env) (m : MsgChangeAdmin)
    (s t : State env)
    → handle_change_admin env m s ≡ (ok tt, t)
    → IsAdmin env s m.denom m.sender
      × (authority_validate env (record { admin = m.new_admin }) ≡ ok tt)
      × IsAdmin env t m.denom m.new_admin
      × ((e : Bytes)
          → m.denom ≢ e
          → get_authority_metadata env e t ≡ get_authority_metadata env e s)
      × ((c e : Bytes)
          → Elem e (get_denoms_from_creator env c t) ↔ Elem e (get_denoms_from_creator env c s))
      × (t.chain ≡ s.chain)
handle_change_admin-effect env stores laws m s t h =
    let a : DenomAuthorityMetadata = record { admin = m.new_admin } in
    let (admin, valid, same_store, same_chain) = handle_change_admin_ok env m s t h in
    let w : State env = written env m.denom a s in
    let reads : (e : Bytes) → get_authority_metadata env e t ≡ get_authority_metadata env e w =
      λ e. same_store-get_authority_metadata env stores laws e w t same_store in
    (
      admin,
      valid,
      reads m.denom ∙ get-written env stores laws m.denom a s valid,
      (λ e n. reads e ∙ get-written_ne env stores m.denom e a s n),
      (λ c e.
          let (there, back) = get_denoms_from_creator-written stores c e m.denom a s in
          let same = get_denoms_from_creator-same_store stores c e w t same_store in
          (
            (λ i. there (subst (λ l. Elem e l) same i)),
            (λ i. subst (λ l. Elem e l) (sym same) (back i)),
          )),
      same_chain,
    )
