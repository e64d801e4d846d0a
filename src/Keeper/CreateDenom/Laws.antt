-- ===== src/Keeper/CreateDenom/Laws.antt =====
-- The parts of CreateDenom, taken apart by how they ended.
use tokenfactory.Base.{
  ◌≡◌, refl, sym, ap, ◌∙◌, Option, none, some, [], ◌∷◌, ◌++◌, false, Option-cases, inl, inr,
}
use tokenfactory.Base.Bytes.{Bytes, same_refl}
use tokenfactory.Base.Outcome
use tokenfactory.Base.Outcome.{
  Outcome, ok, err, panic, native_subdenom, denom_exists, fail_if-eq-ok,
}
use tokenfactory.Env.{Env, BankLaws}
use tokenfactory.Types.Denoms.{get_token_denom}
use tokenfactory.Types.Authority.{DenomAuthorityMetadata, authority_validate}
use tokenfactory.Keeper.Exec.{after, lift, modify, fail_if}
use tokenfactory.Keeper.Exec.Laws.{>>=-eq-ok}
use tokenfactory.Keeper.State.{State}
use tokenfactory.Keeper.Admins.Laws.{written, set_authority_metadata_lem}
use tokenfactory.Keeper.Creators.{add_denom_from_creator}
use tokenfactory.Keeper.CreateDenom.{
  is_some, validate_create_denom, register_metadata, create_denom_after_validation,
}
use tokenfactory.Types.Keys.{creator_prefix}

is_some-eq-false : {A : Type 0} (o : Option A) → is_some o ≡ false → o ≡ none
is_some-eq-false none h = refl
is_some-eq-false (some a) h = cc

module _ (env : Env) where
  -- What validation has found out about a denom that it lets through.
  pub record IsNew (c sub d : Bytes) (s : State env) : Type 0 where
    pub not_native : env.has_supply s.chain sub ≡ false
    pub built : get_token_denom env c sub ≡ ok d
    pub unknown : env.get_denom_metadata s.chain d ≡ none

  pub validate_create_denom_ok :
      (c sub d : Bytes) (s t : State env)
      → validate_create_denom env c sub s ≡ (ok d, t)
      → (t ≡ s) × IsNew c sub d s
  unfolding validate_create_denom
  validate_create_denom_ok c sub d s t h =
      let (_, s1, native, h1) =
        >>=-eq-ok (fail_if (env.has_supply s.chain sub) native_subdenom) _ s h in
      let (d', s2, built, h2) = >>=-eq-ok (lift (get_token_denom env c sub)) _ s1 h1 in
      let (_, s3, found, h3) =
        >>=-eq-ok (fail_if (is_some (env.get_denom_metadata s2.chain d')) denom_exists) _ s2 h2 in
      let e1 : s ≡ s1 = ap (λ r. r.1) native in
      let e2 : s1 ≡ s2 = ap (λ r. r.1) built in
      let e3 : s2 ≡ s3 = ap (λ r. r.1) found in
      let e4 : s3 ≡ t = ap (λ r. r.1) h3 in
      let same_denom : d' ≡ d = Outcome.ok-injective (ap (λ r. r.0) h3) in
      (
        sym e4 ∙ sym e3 ∙ sym e2 ∙ sym e1,
        record {
          not_native = fail_if-eq-ok _ native_subdenom (ap (λ r. r.0) native);
          built = ap (λ r. r.0) built ∙ ap ok same_denom;
          unknown =
              ap (λ x. env.get_denom_metadata x.chain d) (e1 ∙ e2)
              ∙ ap (λ x. env.get_denom_metadata s2.chain x) (sym same_denom)
              ∙ is_some-eq-false _ (fail_if-eq-ok _ denom_exists (ap (λ r. r.0) found));
        },
      )

  -- Registration writes the metadata of a denom that the bank does not know, and nothing else.
  pub register_metadata_new :
      (d : Bytes) (s : State env)
      → env.get_denom_metadata s.chain d ≡ none
      → register_metadata env d s
        ≡ record s { chain = env.set_denom_metadata (env.new_metadata ((d, 0) ∷ []) d) s.chain }
  unfolding register_metadata
  register_metadata_new d s h = rw h

  pub register_metadata_old :
      (d : Bytes) (s : State env) {m : env.Metadata}
      → env.get_denom_metadata s.chain d ≡ some m
      → register_metadata env d s ≡ s
  unfolding register_metadata
  register_metadata_old d s h = rw h

  pub register_metadata_cases :
      (bank : BankLaws env) (d : Bytes) (s : State env)
      → (m : env.Metadata) × (env.get_denom_metadata (register_metadata env d s).chain d ≡ some m)
  register_metadata_cases bank d s = elim (Option-cases (env.get_denom_metadata s.chain d)) [
    | inl e ↦ (
      env.new_metadata ((d, 0) ∷ []) d,
      ap (λ (x : State env). env.get_denom_metadata x.chain d) (register_metadata_new d s e)
          ∙ bank.get-set (env.new_metadata ((d, 0) ∷ []) d) d s.chain
          ∙ rw (bank.base-new_metadata, same_refl),
    )
    | inr (m, e) ↦ (
      m,
      ap (λ (x : State env). env.get_denom_metadata x.chain d) (register_metadata_old d s e) ∙ e,
    )
  ]

  -- The state with a denom in the index of a creator.
  abbrev pub listed : Bytes → Bytes → State env → State env
  listed c d s = record s { store = env.kv_set (creator_prefix c ++ d) d s.store }

  -- Behind the registration, the admin is written if it is valid, and the index after it.
  pub create_denom_after_validation_lem :
      (c d : Bytes) (s : State env)
      → create_denom_after_validation env c d s
        ≡ after
            (λ _ t. (ok tt, listed c d (written env d (record { admin = c }) t)))
            (authority_validate env (record { admin = c }), register_metadata env d s)
  unfolding create_denom_after_validation add_denom_from_creator
  create_denom_after_validation_lem c d s =
      let a : DenomAuthorityMetadata = record { admin = c } in
      ap (after (λ _. add_denom_from_creator env c d))
        (set_authority_metadata_lem env d a (register_metadata env d s))
      ∙ go (authority_validate env a)
    where
      go :
          (v : Outcome (Unit {0}))
          → after
              (λ _. add_denom_from_creator env c d)
              (after
                (λ _. modify (written env d (record { admin = c })))
                (v, register_metadata env d s))
            ≡ after
                (λ _ t. (ok tt, listed c d (written env d (record { admin = c }) t)))
                (v, register_metadata env d s)
      go (ok _) = refl
      go (err e) = refl
      go (panic e) = refl
