-- ===== src/Keeper/Genesis/Valid.antt =====
-- What the validation of a genesis has found out about its denoms, and what the import of one does.
use tokenfactory.Base.{
  ◌≡◌, ◌≢◌, refl, sym, ap, ◌∙◌, List, [], ◌∷◌, Bool, true, false, if◌then◌else◌, All, Elem, inl,
  inr, some,
}
use tokenfactory.Base.Bytes.{Bytes, same, contains, same-cases}
use tokenfactory.Base.Outcome
use tokenfactory.Base.Outcome.{
  Outcome, ok, err, panic, or_panic, invalid_genesis, invalid_authority_metadata, >>=-eq-ok,
  wrap-eq-ok, fail_if-eq-ok,
}
use tokenfactory.Env.{Env, AddressLaws, Coin, Coins, ParamPair}
use tokenfactory.Types.Keys.Separation.{bar}
use tokenfactory.Types.Denoms.{deconstruct_denom}
use tokenfactory.Types.Denoms.RoundTrip.{deconstruct_denom-IsFactoryDenom}
use tokenfactory.Types.Authority.{authority_validate}
use tokenfactory.Types.Params.{Params, param_set_pairs}
use tokenfactory.Types.Genesis.{GenesisDenom, seen, genesis_denom_validate, genesis_denoms_validate}
use tokenfactory.Keeper.State.{State}
use tokenfactory.Keeper.Admins.Laws.{written, set_authority_metadata_lem}
use tokenfactory.Keeper.CreateDenom.{register_metadata}
use tokenfactory.Keeper.CreateDenom.Laws.{listed, create_denom_after_validation_lem}
use tokenfactory.Keeper.Genesis.{init_genesis_denom}

-- What the import relies on beside the other laws: an address prints without "|"; NewCoins of nothing
-- is the empty set of coins, which is valid; SetParamSet goes through where the validators of its pairs
-- accept, GetParamSet then gives back the parameters, the fee as it comes out of the store, which is the
-- same where it is not empty, and neither touches denom metadata; SetDenomMetaData touches no parameter.
pub record ImportLaws (env : Env) : Type 0 where
  pub printed_no_bar :
      (s : Bytes) {a : Bytes}
      → env.address_from_bech32 s ≡ ok a
      → contains bar (env.address_string a) ≡ false
  pub new_coins_empty : (c : Coins) × (env.new_coins [] ≡ ok c) × (env.coins_validate c ≡ ok tt)
  pub set_param_set_ok :
      (ps : List ParamPair) (c : env.Chain)
      → All (λ (p : ParamPair). p.validator p.value ≡ ok tt) ps
      → (env.set_param_set ps c).0 ≡ ok tt
  pub get-set_param_set :
      (ps : List ParamPair) (c : env.Chain) (d : Bytes)
      → env.get_denom_metadata (env.set_param_set ps c).1 d ≡ env.get_denom_metadata c d
  -- a set of coins, written and read: of an empty one may be left a nil one
  pub stored : Coins → Coins
  pub stored_some : (c : Coin) (cs : List Coin) → stored (some (c ∷ cs)) ≡ some (c ∷ cs)
  pub get_param_set-set_param_set :
      (p : Params) (c : env.Chain)
      → (env.set_param_set (param_set_pairs env p) c).0 ≡ ok tt
      → env.get_param_set (env.set_param_set (param_set_pairs env p) c).1
        ≡ ok (stored p.denom_creation_fee, p.denom_creation_gas_consume)
  pub params_kept :
      (m : env.Metadata) (c : env.Chain)
      → env.get_param_set (env.set_denom_metadata m c) ≡ env.get_param_set c

abbrev accept : Outcome (Unit {0})
accept = ok tt

-- A check of an admin does not depend on how its error is wrapped.
unwrapped :
    (b : Bool) (r : Outcome Bytes) {u : Unit {0}}
    → (if b
        then accept
        else Outcome.◌>>=◌ (Outcome.wrap invalid_authority_metadata r) (λ _. accept))
      ≡ ok u
    → (if b then accept else Outcome.◌>>=◌ r (λ _. accept)) ≡ accept
unwrapped true r h = refl
unwrapped false (ok a) h = refl
unwrapped false (err e) h = cc
unwrapped false (panic e) h = cc

module _ (env : Env) where
  -- A denom that the validation has let through.
  pub record IsValidDenom (g : GenesisDenom) : Type 0 where
    pub creator : Bytes
    pub subdenom : Bytes
    pub parts : deconstruct_denom env g.denom ≡ ok (creator, subdenom)
    pub no_bar : contains bar creator ≡ false
    pub creator_valid : authority_validate env (record { admin = creator }) ≡ ok tt
    pub valid : authority_validate env g.authority_metadata ≡ ok tt

  -- None of the denoms is among those that were met, or stands twice.
  pub Distinct : List Bytes → List GenesisDenom → Type 0
  Distinct met [] = Unit {0}
  Distinct met (g ∷ gs) = (seen g.denom met ≡ false) × Distinct (g.denom ∷ met) gs

  module _ (addresses : AddressLaws env) (laws : ImportLaws env) where
    decoded_valid :
        (x a : Bytes)
        → env.address_from_bech32 x ≡ ok a
        → authority_validate env (record { admin = x }) ≡ ok tt
    unfolding authority_validate
    decoded_valid x a e = elim (same-cases x []) [ inl (p, q) ↦ rw q | inr (n, q) ↦ rw (q, e) ]

    genesis_denom_validate-IsValidDenom :
        (g : GenesisDenom) → genesis_denom_validate env g ≡ ok tt → IsValidDenom g
    unfolding genesis_denom_validate authority_validate
    genesis_denom_validate-IsValidDenom g h =
        let ((creator, subdenom), parts, rest) = >>=-eq-ok (deconstruct_denom env g.denom) _ h in
        let (c, a, factory, printed) =
          (deconstruct_denom-IsFactoryDenom env g.denom creator subdenom).0 parts in
        record {
          creator = creator;
          subdenom = subdenom;
          parts = parts;
          no_bar = rw printed (laws.printed_no_bar c factory.address);
          creator_valid =
              decoded_valid creator a
                (ap env.address_from_bech32 printed ∙ addresses.print c factory.address);
          valid =
              unwrapped (same g.authority_metadata.admin [])
                (env.address_from_bech32 g.authority_metadata.admin) rest;
        }

    pub genesis_denoms_validate_ok :
        (met : List Bytes) (gs : List GenesisDenom)
        → genesis_denoms_validate env met gs ≡ ok tt
        → All IsValidDenom gs × Distinct met gs
    unfolding genesis_denoms_validate Distinct
    genesis_denoms_validate_ok met [] h = (tt, tt)
    genesis_denoms_validate_ok met (g ∷ gs) h =
        let (_, both, h2) =
          >>=-eq-ok
            (Outcome.◌>>◌ (Outcome.fail_if (seen g.denom met) invalid_genesis)
              (genesis_denom_validate env g))
            _ h in
        let (_, fresh, one) =
          >>=-eq-ok (Outcome.fail_if (seen g.denom met) invalid_genesis) _ both in
        let (valid, distinct) = genesis_denoms_validate_ok (g.denom ∷ met) gs h2 in
        (
          (genesis_denom_validate-IsValidDenom g one, valid),
          (fail_if-eq-ok _ invalid_genesis fresh, distinct),
        )

  seen-cons :
      (d x : Bytes) (met : List Bytes) → seen d (x ∷ met) ≡ false → (x ≢ d) × (seen d met ≡ false)
  unfolding seen
  seen-cons d x met h = elim (same-cases d x) [
    | inl (p, q) ↦ let clash : true ≡ false = rw q at h in cc
    | inr (n, q) ↦ ((λ e. n (sym e)), (let rest : seen d met ≡ false = rw q at h in rest))
  ]

  -- The denoms behind one that was met are others.
  Distinct-ne :
      (met : List Bytes) (gs : List GenesisDenom) (d : Bytes)
      → Elem d met
      → Distinct met gs
      → All (λ (g : GenesisDenom). d ≢ g.denom) gs
  unfolding Distinct
  Distinct-ne met [] d i h = tt
  Distinct-ne met (g ∷ gs) d i (fresh, rest) =
      (seen-ne met g.denom d i fresh, Distinct-ne (g.denom ∷ met) gs d (inr i) rest)
    where
      seen-ne : (met : List Bytes) (x d : Bytes) → Elem d met → seen x met ≡ false → d ≢ x
      seen-ne [] x d i h e = absurd i
      seen-ne (y ∷ met) x d (inl p) h e = (seen-cons x y met h).0 (sym p ∙ e)
      seen-ne (y ∷ met) x d (inr i) h e = seen-ne met x d i (seen-cons x y met h).1 e

  pub head_others :
      (met : List Bytes) (g : GenesisDenom) (gs : List GenesisDenom)
      → Distinct met (g ∷ gs)
      → All (λ (x : GenesisDenom). g.denom ≢ x.denom) gs
  unfolding Distinct
  head_others met g gs (fresh, rest) = Distinct-ne (g.denom ∷ met) gs g.denom (inl refl) rest

  pub tail-Distinct :
      (met : List Bytes) (g : GenesisDenom) (gs : List GenesisDenom)
      → Distinct met (g ∷ gs)
      → Distinct (g.denom ∷ met) gs
  unfolding Distinct
  tail-Distinct met g gs (fresh, rest) = rest

  -- The state behind the import of one denom.
  abbrev pub imported : Bytes → GenesisDenom → State env → State env
  imported c g s = written env g.denom g.authority_metadata (
      listed env c g.denom
        (written env g.denom (record { admin = c }) (register_metadata env g.denom s)))

  pub init_genesis_denom_lem :
      (g : GenesisDenom) (v : IsValidDenom g) (s : State env)
      → init_genesis_denom env g s ≡ (ok tt, imported v.creator g s)
  unfolding init_genesis_denom
  init_genesis_denom_lem g v s = rw (
    v.parts,
    create_denom_after_validation_lem env v.creator g.denom s,
    v.creator_valid,
    set_authority_metadata_lem env g.denom g.authority_metadata (
        listed env v.creator g.denom
          (written env g.denom (record { admin = v.creator }) (register_metadata env g.denom s))),
    v.valid,
  )
