-- ===== src/Types/Denoms/RoundTrip.antt =====
-- Building a denom and taking it apart.

use tokenfactory.Base.{
  ◌+◌, ◌≤◌, ◌≡◌, ◌↔◌, refl, ap, sym, ◌∙◌, Bool, true, false, List, [], ◌∷◌, ◌++◌, arith, length,
  length-append, not,
}
use tokenfactory.Base.Bytes.{Bytes, contains, split, join, same→eq, same_refl}
use tokenfactory.Base.Split.{split-append, split_nonempty, join-split, split-contains}
use tokenfactory.Base.Outcome.{ok, >>=-eq-ok, wrap-eq-ok, fail_if-eq-ok, ok-injective}
use tokenfactory.Env.{Env}
use tokenfactory.Types.Denoms.{
  module_denom_prefix, max_subdenom_length, max_creator_length, slash, token_denom, get_token_denom,
  deconstruct_parts, deconstruct_denom,
}

-- The parts of a denom whose creator has no slash.
pub split-token_denom :
    (c s : Bytes)
    → contains slash c ≡ false
    → split slash (token_denom c s) ≡ module_denom_prefix ∷ (c ∷ split slash s)
unfolding token_denom
split-token_denom c s h =
    split-append slash module_denom_prefix (c ++ (slash ∷ s)) (unfold contains in refl)
    ∙ ap (λ t. module_denom_prefix ∷ t) (split-append slash c s h)

-- What a denom that was built tells about its creator and subdenom.
pub record WasBuilt (env : Env) (c s d : Bytes) : Type 0 where
  pub short_subdenom : length s ≤ max_subdenom_length
  pub short_creator : length c ≤ max_creator_length
  pub no_slash : contains slash c ≡ false
  pub valid : env.validate_denom d ≡ ok tt
  pub shape : d ≡ token_denom c s

not-eq-false : (b : Bool) → not b ≡ false → b ≡ true
not-eq-false b h = ground arith

module _ (env : Env) where
  -- GetTokenDenom returns a denom exactly if the parts are short, the creator has no slash and the
  -- SDK finds the denom valid; it is then `factory/{creator}/{subdenom}`.
  pub get_token_denom-WasBuilt :
      (c s d : Bytes) → (get_token_denom env c s ≡ ok d) ↔ WasBuilt env c s d
  unfolding get_token_denom
  get_token_denom-WasBuilt c s d = (
    (λ h. record {
      short_subdenom = ground arith;
      short_creator = ground arith;
      no_slash = ground arith;
      valid = ground arith;
      shape = ground arith;
    }),
    (λ w. ground (arith, w.short_subdenom, w.short_creator, w.no_slash, w.valid, w.shape)),
  )

  -- Taking apart a denom that the parts are known of.
  deconstruct-token_denom :
      (c s : Bytes) {a : Bytes}
      → contains slash c ≡ false
      → env.validate_denom (token_denom c s) ≡ ok tt
      → env.address_from_bech32 c ≡ ok a
      → deconstruct_denom env (token_denom c s) ≡ ok (env.address_string a, s)
  unfolding deconstruct_denom deconstruct_parts
  deconstruct-token_denom c s h v e =
      let (p, ps, parts) = split_nonempty slash s in
      let whole : join (slash ∷ []) (p ∷ ps) ≡ s = rw parts at (join-split slash s) in
      rw (v, split-token_denom c s h, parts, deconstruct_parts, same_refl, e, whole)

  -- What a denom that was taken apart is made of.
  pub record IsFactoryDenom (d c s a : Bytes) : Type 0 where
    pub shape : d ≡ token_denom c s
    pub no_slash : contains slash c ≡ false
    pub valid : env.validate_denom d ≡ ok tt
    pub address : env.address_from_bech32 c ≡ ok a

  deconstruct_parts_inv :
      (parts : List Bytes) (x s : Bytes)
      → deconstruct_parts env parts ≡ ok (x, s)
      → (c a q : Bytes) × (qs : List Bytes) × (parts ≡ module_denom_prefix ∷ (c ∷ (q ∷ qs)))
        × (env.address_from_bech32 c ≡ ok a)
        × (x ≡ env.address_string a)
        × (s ≡ join (slash ∷ []) (q ∷ qs))
  unfolding deconstruct_parts
  deconstruct_parts_inv [] x s h = cc
  deconstruct_parts_inv (p ∷ []) x s h = cc
  deconstruct_parts_inv (p ∷ (c ∷ [])) x s h = cc
  deconstruct_parts_inv (p ∷ (c ∷ (q ∷ qs))) x s h =
      let (_, prefix, h') = >>=-eq-ok _ _ h in
      let (a, address, h'') = >>=-eq-ok _ _ h' in
      let e : p ≡ module_denom_prefix = same→eq _ _ (not-eq-false _ (fail_if-eq-ok _ _ prefix)) in
      (
        c,
        a,
        q,
        qs,
        ap (λ t. t ∷ (c ∷ (q ∷ qs))) e,
        wrap-eq-ok _ _ address,
        ap (λ t. t.0) (ok-injective (sym h'')),
        ap (λ t. t.1) (ok-injective (sym h'')),
      )

  join_three :
      (c q s : Bytes) (qs : List Bytes)
      → s ≡ join (slash ∷ []) (q ∷ qs)
      → join (slash ∷ []) (module_denom_prefix ∷ (c ∷ (q ∷ qs))) ≡ token_denom c s
  unfolding token_denom
  join_three c q s qs h = rw h

  deconstruct_denom_inv :
      (d x s : Bytes)
      → deconstruct_denom env d ≡ ok (x, s)
      → (c a : Bytes) × IsFactoryDenom d c s a × (x ≡ env.address_string a)
  unfolding deconstruct_denom
  deconstruct_denom_inv d x s h =
      let (_, valid, h') = >>=-eq-ok _ _ h in
      let (c, a, q, qs, parts, address, printed, rest) =
        deconstruct_parts_inv (split slash d) x s h' in
      let no_slashes = rw parts at (split-contains slash d) in
      (
        c,
        a,
        record {
          shape = sym (join-split slash d) ∙ rw parts (join_three c q s qs rest);
          no_slash = no_slashes.1.0;
          valid = valid;
          address = address;
        },
        printed,
      )

  -- DeconstructDenom returns a creator and a subdenom exactly if the denom is `factory/{c}/{s}` with
  -- a text c without slash that decodes to an address, and the SDK finds the denom valid. The
  -- creator is then that address printed anew, and the subdenom all of s, its slashes included.
  pub deconstruct_denom-IsFactoryDenom :
      (d x s : Bytes)
      → (deconstruct_denom env d ≡ ok (x, s))
        ↔ ((c a : Bytes) × IsFactoryDenom d c s a × (x ≡ env.address_string a))
  deconstruct_denom-IsFactoryDenom d x s = (
    deconstruct_denom_inv d x s,
    (λ r.
        let (c, a, w, e) = r in
        rw (w.shape, e) (deconstruct-token_denom c s w.no_slash (rw w.shape at w.valid) w.address)),
  )

-- Two creators without slash and two subdenoms make the same denom only if they are the same.
pub token_denom-injective :
    (c s c' s' : Bytes)
    → contains slash c ≡ false
    → contains slash c' ≡ false
    → token_denom c s ≡ token_denom c' s'
    → (c ≡ c') × (s ≡ s')
token_denom-injective c s c' s' h h' e =
    let parts : module_denom_prefix ∷ (c ∷ split slash s)
        ≡ module_denom_prefix ∷ (c' ∷ split slash s') =
      sym (split-token_denom c s h) ∙ ap (split slash) e ∙ split-token_denom c' s' h' in
    let tails : split slash s ≡ split slash s' = cc in
    (cc, sym (join-split slash s) ∙ ap (join (slash ∷ [])) tails ∙ join-split slash s')

-- A denom that GetTokenDenom has built and whose creator is an address is taken apart by
-- DeconstructDenom into that address, printed anew, and the subdenom.
pub deconstruct_denom-get_token_denom :
    (env : Env) (c s : Bytes) {d a : Bytes}
    → get_token_denom env c s ≡ ok d
    → env.address_from_bech32 c ≡ ok a
    → deconstruct_denom env d ≡ ok (env.address_string a, s)
deconstruct_denom-get_token_denom env c s {d} h e =
    let w = (get_token_denom-WasBuilt env c s d).0 h in
    rw w.shape (deconstruct-token_denom env c s w.no_slash (rw w.shape at w.valid) e)

-- GetTokenDenom gives one denom to two pairs of creator and subdenom only if they are the same pair.
pub get_token_denom-injective :
    (env : Env) (c s c' s' : Bytes) {d : Bytes}
    → get_token_denom env c s ≡ ok d
    → get_token_denom env c' s' ≡ ok d
    → (c ≡ c') × (s ≡ s')
get_token_denom-injective env c s c' s' {d} h h' =
    let w = (get_token_denom-WasBuilt env c s d).0 h in
    let w' = (get_token_denom-WasBuilt env c' s' d).0 h' in
    token_denom-injective c s c' s' w.no_slash w'.no_slash (sym w.shape ∙ w'.shape)

length-token_denom : (c s : Bytes) → length (token_denom c s) ≡ 9 + length c + length s
unfolding token_denom
length-token_denom c s = omega (arith, length-append {0} c (slash ∷ s))

-- A denom that GetTokenDenom returns has 128 bytes at most, the SDK's bound.
pub length-get_token_denom :
    (env : Env) (c s : Bytes) {d : Bytes} → get_token_denom env c s ≡ ok d → length d ≤ 128
length-get_token_denom env c s {d} h =
    let w = (get_token_denom-WasBuilt env c s d).0 h in
    rw w.shape (omega (arith, length-token_denom c s, w.short_creator, w.short_subdenom))
