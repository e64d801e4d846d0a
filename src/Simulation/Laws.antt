-- ===== src/Simulation/Laws.antt =====
-- The random choices: what they may come to.
use tokenfactory.Base.{
  ℕ, zero, suc, ◌+◌, ◌≤◌, ◌<◌, ◌≡◌, refl, sym, ap, subst, ◌∙◌, List, [], ◌∷◌, length, Bool, true,
  false, Bool-cases, ◌⊎◌, inl, inr, Elem, All, Option, none, some, arith,
}
use tokenfactory.Base.Bytes.{Bytes}
use tokenfactory.Base.Outcome
use tokenfactory.Base.Outcome.{Outcome, Error, ok, err, panic}
use tokenfactory.Env.{Env, ℤ, unset, pos, negsuc}
use tokenfactory.Types.Keys.{creator_prefix}
use tokenfactory.Keeper.Exec.{pure, lift, ◌>>=◌}
use tokenfactory.Keeper.Exec.Laws.{>>=-eq-ok}
use tokenfactory.Keeper.State.{State}
use tokenfactory.Keeper.Admins.{get_authority_metadata}
use tokenfactory.Keeper.Creators.{get_denoms_from_creator}
use tokenfactory.Keeper.MsgServer.Authority.{IsAdmin}
use tokenfactory.Simulation.Random.{
  Random, RandomLaws, element_at, rand_select, rand_lt_bound, rand_positive_int,
}
use tokenfactory.Simulation.Accounts.{
  Simulator, filtered, is_empty, random_sim_account, random_sim_account_with_constraint,
  gather_all_keys_from_store, get_token_factory_denom_and_its_admin,
}

-- RandPositiveInt draws at least 1 and at most the bound; it draws the bound itself only where that is
-- 1. It returns nothing for an unset, a negative or a zero bound.
pub rand_positive_int-bounds :
    (rnd : Random) (laws : RandomLaws rnd) (max n : ℤ) (r r' : rnd.Rand)
    → rand_positive_int rnd max r ≡ (ok n, r')
    → (m k : ℕ) × (max ≡ pos m) × (n ≡ pos k) × (1 ≤ k) × (k ≤ m) × (2 ≤ m → k < m)
unfolding rand_positive_int
rand_positive_int-bounds rnd laws unset n r r' h = cc
rand_positive_int-bounds rnd laws (negsuc j) n r r' h = cc
rand_positive_int-bounds rnd laws (pos zero) n r r' h = cc
rand_positive_int-bounds rnd laws (pos (suc zero)) n r r' h =
    let zero_drawn = laws.big_rand_zero r in
    (
      1,
      (rnd.big_rand 0 r).0 + 1,
      refl,
      sym (Outcome.ok-injective (ap (λ x. x.0) h)),
      omega arith,
      omega arith,
      (λ two. absurd (omega (arith, two))),
    )
rand_positive_int-bounds rnd laws (pos (suc (suc j))) n r r' h =
    let below = laws.big_rand_below j r in
    (
      suc (suc j),
      (rnd.big_rand (suc j) r).0 + 1,
      refl,
      sym (Outcome.ok-injective (ap (λ x. x.0) h)),
      omega arith,
      omega arith,
      (λ two. omega arith),
    )

element_at-Elem : {A : Type 0} (n : ℕ) (xs : List A) {x : A} → element_at n xs ≡ ok x → Elem x xs
unfolding element_at
element_at-Elem n [] h = absurd (cc h)
element_at-Elem zero (y ∷ ys) {x} h = inl (sym (Outcome.ok-injective h))
element_at-Elem (suc n) (y ∷ ys) h = inr (element_at-Elem n ys h)

module _ {A : Type 0} (f : A → Bool) where
  Elem-filtered : (a : A) (xs : List A) → Elem a (filtered f xs) → Elem a xs × (f a ≡ true)
  unfolding filtered
  Elem-filtered a [] h = absurd h
  Elem-filtered a (x ∷ xs) h = elim (Bool-cases (f x)) [
    | inl e ↦ let i : (a ≡ x) ⊎ Elem a (filtered f xs) = rw e at h in split e (Elem-filtered a xs) i
    | inr e ↦
        let i : Elem a (filtered f xs) = rw e at h in
        let (j, t) = Elem-filtered a xs i in (inr j, t)
  ]
    where
      split :
          f x ≡ true
          → (Elem a (filtered f xs) → Elem a xs × (f a ≡ true))
          → (a ≡ x) ⊎ Elem a (filtered f xs)
          → ((a ≡ x) ⊎ Elem a xs) × (f a ≡ true)
      split e ih (inl p) = (inl p, ap f p ∙ e)
      split e ih (inr j) = let (k, t) = ih j in (inr k, t)

  filtered-is_empty : (xs : List A) → is_empty (filtered f xs) ≡ true → All (λ a. f a ≡ false) xs
  unfolding filtered
  filtered-is_empty [] h = tt
  filtered-is_empty (x ∷ xs) h = elim (Bool-cases (f x)) [
    | inl e ↦ let clash : false ≡ true = rw e at h in cc
    | inr e ↦
        let rest : is_empty (filtered f xs) ≡ true = rw e at h in (e, filtered-is_empty xs rest)
  ]

module _ {env : Env} (sim : Simulator env) where
  pub random_sim_account-Elem :
      (accs : List sim.Account) (r r' : Random.Rand sim.random) {a : sim.Account}
      → random_sim_account sim accs r ≡ (ok a, r')
      → Elem a accs
  unfolding random_sim_account
  random_sim_account-Elem accs r r' h =
      let (idx, r1, drawn, last) = >>=-eq-ok (Random.intn sim.random (pos (length accs))) _ r h in
      element_at-Elem idx accs (ap (λ x. x.0) last)

  -- RandomSimAccountWithConstraint finds an account of the list that has the constraint, and finds none
  -- only where no account has it.
  pub random_sim_account_with_constraint_lem :
      (accs : List sim.Account) (f : sim.Account → Bool) (r r' : Random.Rand sim.random)
      (o : Option sim.Account)
      → random_sim_account_with_constraint sim accs f r ≡ (ok o, r')
      → ((o ≡ none) × All (λ a. f a ≡ false) accs)
        ⊎ ((a : sim.Account) × (o ≡ some a) × Elem a accs × (f a ≡ true))
  unfolding random_sim_account_with_constraint
  random_sim_account_with_constraint_lem accs f r r' o h =
      elim (Bool-cases (is_empty (filtered f accs))) [
        | inl e ↦
            let nothing : Option sim.Account = none in
            let done : (ok nothing, r) ≡ (ok o, r') = rw e at h in
            inl (sym (Outcome.ok-injective (ap (λ x. x.0) done)), filtered-is_empty f accs e)
        | inr e ↦
            let draw : (random_sim_account sim (filtered f accs) >>= λ a. pure (some a)) r
                ≡ (ok o, r') =
              rw e at h in
            let (a, r1, drawn, last) =
              >>=-eq-ok (random_sim_account sim (filtered f accs)) _ r draw in
            let (i, t) =
              Elem-filtered f a accs (random_sim_account-Elem (filtered f accs) r r1 drawn) in
            inr (a, sym (Outcome.ok-injective (ap (λ x. x.0) last)), i, t)
      ]

  -- A denom in the index of an account, with the address of its admin.
  pub record Chosen (s : State env) (acc : sim.Account) (d addr : Bytes) : Type 0 where
    pub indexed : Elem d (get_denoms_from_creator env (env.address_string (sim.address acc)) s)
    pub admin : Bytes
    pub is_admin : IsAdmin env s d admin
    pub decodes : env.address_from_bech32 admin ≡ ok addr

  pub get_token_factory_denom_and_its_admin-Chosen :
      (s : State env) (acc : sim.Account) (r r' : Random.Rand sim.random) {d addr : Bytes}
      → get_token_factory_denom_and_its_admin sim s acc r ≡ (ok (d, addr), r')
      → Chosen s acc d addr
  unfolding get_token_factory_denom_and_its_admin rand_select gather_all_keys_from_store
      get_denoms_from_creator
  get_token_factory_denom_and_its_admin-Chosen s acc r r' {d} {addr} h =
      let keys =
        gather_all_keys_from_store sim (creator_prefix (env.address_string (sim.address acc))) s in
      let (d', r1, h1, k1) = >>=-eq-ok (rand_select sim.random keys) _ r h in
      let (n, r2, h2, k2) = >>=-eq-ok (rand_lt_bound sim.random (pos (length keys))) _ r h1 in
      let (m, r3, h3, k3) = >>=-eq-ok (lift (get_authority_metadata env d' s)) _ r1 k1 in
      let (x, r4, h4, k4) = >>=-eq-ok (lift (env.address_from_bech32 m.admin)) _ r3 k3 in
      let pair : (d', x) ≡ (d, addr) = Outcome.ok-injective (ap (λ y. y.0) k4) in
      let same_denom : d' ≡ d = ap (λ (y : Bytes × Bytes). y.0) pair in
      record {
        indexed = subst (λ y. Elem y keys) same_denom (element_at-Elem n keys (ap (λ y. y.0) k2));
        admin = m.admin;
        is_admin = subst (λ y. get_authority_metadata env y s ≡ ok m) same_denom (ap (λ y. y.0) h3);
        decodes = ap (λ y. y.0) h4 ∙ ap ok (ap (λ (y : Bytes × Bytes). y.1) pair);
      }
