-- ===== src/Keeper/BankActions/Laws.antt =====
-- What minting, burning and moving coins does to the bank's ledger when it goes through.
use tokenfactory.Base.{ℕ, ◌+◌, ◌≡◌, refl, sym, ap, subst, ◌∙◌, Bool, [], ◌∷◌, arith}
use tokenfactory.Base.Bytes.{Bytes, same}
use tokenfactory.Base.Outcome.{Outcome, ok, err, panic, ok-injective}
use tokenfactory.Env.{Env, Coin, Coins, pos, Effect}
use tokenfactory.Env.Ledger.{Ledger, LedgerLaws, when, of_denom, Pays}
use tokenfactory.Types.Keys.{module_name}
use tokenfactory.Types.Denoms.{deconstruct_denom}
use tokenfactory.Keeper.Exec.{Exec, lift, after, ◌>>=◌}
use tokenfactory.Keeper.State.{State, call}
use tokenfactory.Keeper.BankActions.{mint_to, burn_from, force_transfer_coins}

module _ {env : Env} {A B : Type 0} where
  -- A sequence that returns, behind an outcome that was passed on.
  pub lift-then :
      (o : Outcome A) (f : A → Exec (State env) B) (s : State env) {b : B} {t : State env}
      → (lift o >>= f) s ≡ (ok b, t)
      → (a : A) × (o ≡ ok a) × (f a s ≡ (ok b, t))
  lift-then (ok a) f s h = (a, refl, h)
  lift-then (err e) f s h = cc
  lift-then (panic e) f s h = cc

  -- A sequence that returns, behind a call of another keeper, which has changed the chain alone.
  pub call-then :
      (m : Effect env.Chain A) (f : A → Exec (State env) B) (s : State env) {b : B} {t : State env}
      → (call env m >>= f) s ≡ (ok b, t)
      → (a : A) × ((m s.chain).0 ≡ ok a) × (f a (record s { chain = (m s.chain).1 }) ≡ (ok b, t))
  call-then m f s {b} {t} h = go (m s.chain).0 refl h
    where
      go :
          (o : Outcome A)
          → (m s.chain).0 ≡ o
          → after f (o, record s { chain = (m s.chain).1 }) ≡ (ok b, t)
          → (a : A) × ((m s.chain).0 ≡ ok a)
            × (f a (record s { chain = (m s.chain).1 }) ≡ (ok b, t))
      go (ok a) e k = (a, e, k)
      go (err x) e k = cc
      go (panic x) e k = cc

module _ (env : Env) (ledger : Ledger env) where
  open ledger use {supply, balance, amount_of, module_address}

  -- `n` of the denom have come to be, and the account holds them.
  pub record Minted (denom : Bytes) (n : ℕ) (a : Bytes) (c c' : env.Chain) : Type 0 where
    pub supplied : (d : Bytes) → supply c' d ≡ supply c d + of_denom denom n d
    pub held : (x d : Bytes) → balance c' x d ≡ balance c x d + when (same a x) (of_denom denom n d)

  -- `n` of the denom that the account held are no more.
  pub record Burnt (denom : Bytes) (n : ℕ) (a : Bytes) (c c' : env.Chain) : Type 0 where
    pub supplied : (d : Bytes) → supply c' d + of_denom denom n d ≡ supply c d
    pub held : (x d : Bytes) → balance c' x d + when (same a x) (of_denom denom n d) ≡ balance c x d

  -- `n` of the denom have passed from one account to another.
  pub record Moved (denom : Bytes) (n : ℕ) (a b : Bytes) (c c' : env.Chain) : Type 0 where
    pub supplied : (d : Bytes) → supply c' d ≡ supply c d
    pub held :
        (x d : Bytes)
        → balance c' x d + when (same a x) (of_denom denom n d)
          ≡ balance c x d + when (same b x) (of_denom denom n d)

  module _ (cs : Coins) (denom : Bytes) (n : ℕ)
      (amounts : (d : Bytes) → amount_of cs d ≡ of_denom denom n d) where
    -- `n` of the denom, or nothing, is what the coins have of each denom, or nothing.
    same_when : (b : Bool) (d : Bytes) → when b (amount_of cs d) ≡ when b (of_denom denom n d)
    same_when b d = ap (when b) (amounts d)

    Pays-Moved :
        (a b : Bytes) (c c' : env.Chain) → Pays env ledger a b cs c c' → Moved denom n a b c c'
    Pays-Moved a b c c' p = record {
      supplied = p.0;
      held = λ x d. omega (arith, p.1 x d, same_when (same a x) d, same_when (same b x) d);
    }

    Pays-Minted :
        (m a : Bytes) (c c' c'' : env.Chain)
        → ((d : Bytes) → supply c' d ≡ supply c d + amount_of cs d)
        → ((x d : Bytes) → balance c' x d ≡ balance c x d + when (same m x) (amount_of cs d))
        → Pays env ledger m a cs c' c''
        → Minted denom n a c c''
    Pays-Minted m a c c' c'' made put p = record {
      supplied = λ d. omega (arith, p.0 d, made d, amounts d);
      held = λ x d. omega (arith, p.1 x d, put x d, same_when (same a x) d);
    }

    Pays-Burnt :
        (m a : Bytes) (c c' c'' : env.Chain)
        → Pays env ledger a m cs c c'
        → ((d : Bytes) → supply c'' d + amount_of cs d ≡ supply c' d)
        → ((x d : Bytes) → balance c'' x d + when (same m x) (amount_of cs d) ≡ balance c' x d)
        → Burnt denom n a c c''
    Pays-Burnt m a c c' c'' p gone taken = record {
      supplied = λ d. omega (arith, p.0 d, gone d, amounts d);
      held = λ x d. omega (arith, p.1 x d, taken x d, same_when (same a x) d);
    }

  module _ (laws : LedgerLaws env ledger) where
    -- mintTo: the module account is where the coins come from, and keeps none of them.
    pub mint_to-Minted :
        (amount : Coin) (to : Bytes) (s t : State env) {u : Unit {0}}
        → mint_to env amount to s ≡ (ok u, t)
        → (a : Bytes) × (n : ℕ) × (env.address_from_bech32 to ≡ ok a)
          × (amount.amount ≡ pos n)
          × (t.store ≡ s.store)
          × Minted amount.denom n a s.chain t.chain
    unfolding mint_to
    mint_to-Minted amount to s t {u} h =
        let (_, _, k0) = lift-then (deconstruct_denom env amount.denom) _ s h in
        let (cs, made, k1) = lift-then (env.new_coins (amount ∷ [])) _ s k0 in
        let (_, minted, k2) = call-then (env.mint_coins module_name cs) _ s k1 in
        let (a, decodes, k3) = lift-then (env.address_from_bech32 to) _ _ k2 in
        let (cs', made', k4) = lift-then (env.new_coins (amount ∷ [])) _ _ k3 in
        let c1 = (env.mint_coins module_name cs s.chain).1 in
        let k5 =
          subst
            (λ q.
              call env (env.send_coins_from_module_to_account module_name a q)
                (record s { chain = c1 })
              ≡ (ok u, t))
            (ok-injective (sym made' ∙ made)) k4 in
        let (n, e, amounts) = laws.new_coins_one amount cs made in
        let (made1, put) = laws.mints module_name cs s.chain minted in
        let paid = laws.pays_out module_name a cs c1 (ap (λ r. r.0) k5) in
        (
          a,
          n,
          decodes,
          e,
          sym (ap (λ r. r.1.store) k5),
          subst (λ q. Minted amount.denom n a s.chain q) (ap (λ r. r.1.chain) k5)
              (Pays-Minted cs amount.denom n amounts (module_address module_name) a s.chain c1 _
                made1 put paid),
        )

    -- burnFrom
    pub burn_from-Burnt :
        (amount : Coin) (from : Bytes) (s t : State env) {u : Unit {0}}
        → burn_from env amount from s ≡ (ok u, t)
        → (a : Bytes) × (n : ℕ) × (env.address_from_bech32 from ≡ ok a)
          × (amount.amount ≡ pos n)
          × (t.store ≡ s.store)
          × Burnt amount.denom n a s.chain t.chain
    unfolding burn_from
    burn_from-Burnt amount from s t {u} h =
        let (_, _, k0) = lift-then (deconstruct_denom env amount.denom) _ s h in
        let (a, decodes, k1) = lift-then (env.address_from_bech32 from) _ s k0 in
        let (cs, made, k2) = lift-then (env.new_coins (amount ∷ [])) _ s k1 in
        let (_, sent, k3) =
          call-then (env.send_coins_from_account_to_module a module_name cs) _ s k2 in
        let (cs', made', k4) = lift-then (env.new_coins (amount ∷ [])) _ _ k3 in
        let c1 = (env.send_coins_from_account_to_module a module_name cs s.chain).1 in
        let k5 =
          subst (λ q. call env (env.burn_coins module_name q) (record s { chain = c1 }) ≡ (ok u, t))
            (ok-injective (sym made' ∙ made)) k4 in
        let (n, e, amounts) = laws.new_coins_one amount cs made in
        let (gone, taken) = laws.burns module_name cs c1 (ap (λ r. r.0) k5) in
        let paid = laws.pays_in a module_name cs s.chain sent in
        (
          a,
          n,
          decodes,
          e,
          sym (ap (λ r. r.1.store) k5),
          subst (λ q. Burnt amount.denom n a s.chain q) (ap (λ r. r.1.chain) k5)
              (Pays-Burnt cs amount.denom n amounts (module_address module_name) a s.chain c1 _ paid
                gone taken),
        )

    -- forceTransfer
    pub force_transfer_coins-Moved :
        (amount : Coin) (from to : Bytes) (s t : State env) {u : Unit {0}}
        → force_transfer_coins env amount from to s ≡ (ok u, t)
        → (a b : Bytes) × (n : ℕ) × (env.address_from_bech32 from ≡ ok a)
          × (env.address_from_bech32 to ≡ ok b)
          × (amount.amount ≡ pos n)
          × (t.store ≡ s.store)
          × Moved amount.denom n a b s.chain t.chain
    unfolding force_transfer_coins
    force_transfer_coins-Moved amount from to s t h =
        let (_, _, k0) = lift-then (deconstruct_denom env amount.denom) _ s h in
        let (a, decodes, k1) = lift-then (env.address_from_bech32 from) _ s k0 in
        let (b, decodes', k2) = lift-then (env.address_from_bech32 to) _ s k1 in
        let (cs, made, k3) = lift-then (env.new_coins (amount ∷ [])) _ s k2 in
        let (n, e, amounts) = laws.new_coins_one amount cs made in
        let paid = laws.pays a b cs s.chain (ap (λ r. r.0) k3) in
        (
          a,
          b,
          n,
          decodes,
          decodes',
          e,
          sym (ap (λ r. r.1.store) k3),
          subst (λ q. Moved amount.denom n a b s.chain q) (ap (λ r. r.1.chain) k3)
              (Pays-Moved cs amount.denom n amounts a b s.chain _ paid),
        )
