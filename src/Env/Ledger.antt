-- ===== src/Env/Ledger.antt =====
-- What the bank keeps of coins: how much of each denom there is, and how much of it each account holds.
use tokenfactory.Base.{ℕ, ◌+◌, ◌≤◌, ◌<◌, ◌≡◌, Bool, [], ◌∷◌, if◌then◌else◌}
use tokenfactory.Base.Bytes.{Bytes, same}
use tokenfactory.Base.Outcome.{ok}
use tokenfactory.Env.Kinds.{Env, Coin, Coins, pos}

-- GetSupply, GetBalance, LockedCoins, Coins.AmountOf and GetModuleAddress.
pub record Ledger (env : Env) : Type 0 where
  pub supply : env.Chain → Bytes → ℕ
  pub balance : env.Chain → Bytes → Bytes → ℕ
  pub locked : env.Chain → Bytes → Bytes → ℕ
  pub amount_of : Coins → Bytes → ℕ
  pub module_address : Bytes → Bytes

-- `n`, or nothing.
abbrev pub when : Bool → ℕ → ℕ
when b n = if b then n else 0

-- `n` of a denom: nothing of the others.
abbrev pub of_denom : Bytes → ℕ → Bytes → ℕ
of_denom denom n d = when (same denom d) n

module _ (env : Env) (ledger : Ledger env) where
  open ledger use {supply, balance, locked, amount_of, module_address}

  -- The coins pass from one account to another, and no others do.
  abbrev pub Pays : Bytes → Bytes → Coins → env.Chain → env.Chain → Type 0
  Pays from to cs c c' =
      ((d : Bytes) → supply c' d ≡ supply c d)
      × ((x d : Bytes)
          → balance c' x d + when (same from x) (amount_of cs d)
            ≡ balance c x d + when (same to x) (amount_of cs d))

  -- What a call of the bank does to the ledger when it returns.
  pub record LedgerLaws : Type 0 where
    -- a set of one coin is that coin, of which there is no negative amount
    pub new_coins_one :
        (c : Coin) (cs : Coins)
        → env.new_coins (c ∷ []) ≡ ok cs
        → (n : ℕ) × (c.amount ≡ pos n) × ((d : Bytes) → amount_of cs d ≡ of_denom c.denom n d)
    pub mints :
        (n : Bytes) (cs : Coins) (c : env.Chain)
        → (env.mint_coins n cs c).0 ≡ ok tt
        → ((d : Bytes) → supply (env.mint_coins n cs c).1 d ≡ supply c d + amount_of cs d)
          × ((x d : Bytes)
              → balance (env.mint_coins n cs c).1 x d
                ≡ balance c x d + when (same (module_address n) x) (amount_of cs d))
    pub burns :
        (n : Bytes) (cs : Coins) (c : env.Chain)
        → (env.burn_coins n cs c).0 ≡ ok tt
        → ((d : Bytes) → supply (env.burn_coins n cs c).1 d + amount_of cs d ≡ supply c d)
          × ((x d : Bytes)
              → balance (env.burn_coins n cs c).1 x d
                  + when (same (module_address n) x) (amount_of cs d)
                ≡ balance c x d)
    pub pays :
        (f t : Bytes) (cs : Coins) (c : env.Chain)
        → (env.send_coins f t cs c).0 ≡ ok tt
        → Pays f t cs c (env.send_coins f t cs c).1
    pub pays_out :
        (n t : Bytes) (cs : Coins) (c : env.Chain)
        → (env.send_coins_from_module_to_account n t cs c).0 ≡ ok tt
        → Pays (module_address n) t cs c (env.send_coins_from_module_to_account n t cs c).1
    pub pays_in :
        (f n : Bytes) (cs : Coins) (c : env.Chain)
        → (env.send_coins_from_account_to_module f n cs c).0 ≡ ok tt
        → Pays f (module_address n) cs c (env.send_coins_from_account_to_module f n cs c).1
    -- no coins come into being by fees, gas and metadata
    pub supply-fund_community_pool :
        (cs : Coins) (f : Bytes) (c : env.Chain) (d : Bytes)
        → (env.fund_community_pool cs f c).0 ≡ ok tt
        → supply (env.fund_community_pool cs f c).1 d ≡ supply c d
    pub supply-consume_gas :
        (n : ℕ) (c : env.Chain) (d : Bytes)
        → (env.consume_gas n c).0 ≡ ok tt
        → supply (env.consume_gas n c).1 d ≡ supply c d
    pub supply-set_denom_metadata :
        (m : env.Metadata) (c : env.Chain) (d : Bytes)
        → supply (env.set_denom_metadata m c) d ≡ supply c d

  -- What the bank lets through for a module whose account the application has registered with the
  -- permissions to mint and to burn: an account can pay to the module what it holds beyond the coins that
  -- are locked, and the module can burn what its account holds, where nothing is locked.
  pub record FundsLaws (name : Bytes) : Type 0 where
    pub can_pay_in :
        (f : Bytes) (cs : Coins) (c : env.Chain)
        → ((d : Bytes) → 0 < amount_of cs d → amount_of cs d + locked c f d ≤ balance c f d)
        → (env.send_coins_from_account_to_module f name cs c).0 ≡ ok tt
    pub can_burn :
        (cs : Coins) (c : env.Chain)
        → ((d : Bytes) → amount_of cs d ≤ balance c (module_address name) d)
        → ((d : Bytes) → amount_of cs d ≤ supply c d)
        → (env.burn_coins name cs c).0 ≡ ok tt
