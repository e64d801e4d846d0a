-- ===== src/Examples/Vault.antt =====
-- A chain in memory whose bank counts coins: it fails to take what is not there. A set of coins is one
-- coin.
use tokenfactory.Base.{
  ℕ, zero, suc, ◌<◌, ◌+◌, ◌-◌, ◌≤◌, ◌≡◌, refl, sym, ap, subst, none, some, List, [], ◌∷◌, Bool,
  true, false, ◌&&◌, if◌then◌else◌, leb, arith, Bool-cases, inl, inr,
}
use tokenfactory.Base.Bytes.{Bytes, text, same, same-cases, same_refl}
use tokenfactory.Base.Outcome.{Outcome, ok, err, panic, invalid_coins, ok-injective}
use tokenfactory.Env.{
  Env, Coins, Coin, ℤ, unset, pos, negsuc, Effect, StoreLaws, AddressLaws, DenomLaws, BankLaws,
}
use tokenfactory.Env.Ledger.{Ledger, LedgerLaws, FundsLaws, when, of_denom, Pays}
use tokenfactory.Types.Keys.{module_name}
use tokenfactory.Examples.Store.{lookup, iterate}
use tokenfactory.Examples.Chain.{
  find, address_from_bech32, validate_denom, equal_zero, is_valid, chain-StoreLaws,
  chain-AddressLaws, chain-DenomLaws,
}

pub record Vault : Type 0 where
  pub known : List Bytes
  pub supply : Bytes → ℕ
  pub balance : Bytes → Bytes → ℕ

unfoldable pub one_coin : Coin → Outcome Coins
one_coin c = elim c.amount [
  | unset ↦ panic invalid_coins
  | pos n ↦ ok (some (c ∷ []))
  | negsuc n ↦ panic invalid_coins
]

unfoldable pub new_coins : List Coin → Outcome Coins
unfolding one_coin
new_coins [] = ok (some [])
new_coins (c ∷ cs) = one_coin c

unfoldable pub magnitude : ℤ → ℕ
magnitude unset = 0
magnitude (pos n) = n
magnitude (negsuc n) = 0

unfoldable pub amount_of : Coins → Bytes → ℕ
unfolding magnitude
amount_of none d = 0
amount_of (some []) d = 0
amount_of (some (c ∷ cs)) d = of_denom c.denom (magnitude c.amount) d

unfoldable pub enough : (Bytes → ℕ) → Coins → Bool
unfolding magnitude
enough b none = true
enough b (some []) = true
enough b (some (c ∷ cs)) = leb (magnitude c.amount) (b c.denom)

abbrev put : Bytes → Coins → (Bytes → Bytes → ℕ) → Bytes → Bytes → ℕ
put a cs b x d = b x d + when (same a x) (amount_of cs d)

abbrev take_away : Bytes → Coins → (Bytes → Bytes → ℕ) → Bytes → Bytes → ℕ
take_away a cs b x d = b x d - when (same a x) (amount_of cs d)

unfoldable pub mint : Bytes → Coins → Effect Vault (Unit {0})
mint n cs v =
    (ok tt, record v { supply = λ d. v.supply d + amount_of cs d; balance = put n cs v.balance })

unfoldable pub burn : Bytes → Coins → Effect Vault (Unit {0})
burn n cs v =
    if enough (v.balance n) cs && enough v.supply cs
    then (
      ok tt,
      record v { supply = λ d. v.supply d - amount_of cs d; balance = take_away n cs v.balance },
    )
    else (err invalid_coins, v)

unfoldable pub send : Bytes → Bytes → Coins → Effect Vault (Unit {0})
send f t cs v =
    if enough (v.balance f) cs
    then (ok tt, record v { balance = put t cs (take_away f cs v.balance) })
    else (err invalid_coins, v)

abbrev pub vault : Env
vault = record {
  Store = List (Bytes × Bytes);
  Chain = Vault;
  Metadata = Bytes;
  Account = Bool;
  kv_get = λ s k. lookup k s;
  kv_set = λ k v s. (k, v) ∷ s;
  kv_iterate = iterate;
  validate_denom = validate_denom;
  address_from_bech32 = address_from_bech32;
  address_string = λ a. 111 ∷ a;
  new_coins = new_coins;
  coins_validate = λ cs. ok tt;
  coin_is_valid = is_valid;
  equal_zero = equal_zero;
  coin_string = λ c. c.denom;
  new_metadata = λ u b. b;
  base = λ m. m;
  metadata_validate = λ m. ok tt;
  metadata_string = λ m. m;
  get_denom_metadata = λ c d. find c.known d;
  set_denom_metadata = λ m c. record c { known = m ∷ c.known };
  has_supply = λ c d. false;
  mint_coins = mint;
  burn_coins = burn;
  send_coins_from_module_to_account = send;
  send_coins_from_account_to_module = send;
  send_coins = send;
  get_account = λ c a. if same a (text "pool") then some true else some false;
  is_module_account = λ a. a;
  get_module_account = λ n c. (ok tt, c);
  fund_community_pool = λ a f. send f (text "pool") a;
  consume_gas = λ n c. (ok tt, c);
  get_param_set = λ c. ok (none, 0);
  set_param_set = λ ps c. (ok tt, c);
}

abbrev pub counts : Ledger vault
counts = record {
  supply = λ v. v.supply;
  balance = λ v. v.balance;
  locked = λ v a d. 0;
  amount_of = amount_of;
  module_address = λ n. n;
}

one_coin_ok :
    (d : Bytes) (x : ℤ) (cs : Coins)
    → one_coin (record { denom = d; amount = x }) ≡ ok cs
    → (n : ℕ) × (x ≡ pos n) × ((e : Bytes) → amount_of cs e ≡ of_denom d n e)
unfolding one_coin amount_of
one_coin_ok d unset cs h = cc
one_coin_ok d (pos n) cs h = (n, refl, (λ e. ap (λ q. amount_of q e) (sym (ok-injective h))))
one_coin_ok d (negsuc n) cs h = cc

enough_lem : (b : Bytes → ℕ) (cs : Coins) (d : Bytes) → enough b cs ≡ true → amount_of cs d ≤ b d
unfolding enough amount_of
enough_lem b none d h = omega arith
enough_lem b (some []) d h = omega arith
enough_lem b (some (c ∷ cs)) d h = elim (same-cases c.denom d) [
  | inl (p, q) ↦ rw q (ground (arith, ap b p))
  | inr (p, q) ↦ rw q (omega arith)
]

enough-covered :
    (b : Bytes → ℕ) (cs : Coins) → ((d : Bytes) → amount_of cs d ≤ b d) → enough b cs ≡ true
unfolding enough amount_of
enough-covered b none h = refl
enough-covered b (some []) h = refl
enough-covered b (some (c ∷ cs)) h = ground (arith, rw same_refl at (h c.denom))

-- What is taken from the account was there.
covered :
    (b : Bytes → Bytes → ℕ) (a : Bytes) (cs : Coins)
    → enough (b a) cs ≡ true
    → (x d : Bytes) → when (same a x) (amount_of cs d) ≤ b x d
covered b a cs h x d = elim (same-cases a x) [
  | inl (p, q) ↦ rw q (subst (λ y. amount_of cs d ≤ b y d) p (enough_lem (b a) cs d h))
  | inr (p, q) ↦ rw q (omega arith)
]

send-Pays :
    (f t : Bytes) (cs : Coins) (v : Vault)
    → (send f t cs v).0 ≡ ok tt
    → Pays vault counts f t cs v (send f t cs v).1
unfolding send
send-Pays f t cs v h = elim (Bool-cases (enough (v.balance f) cs)) [
  | inl e ↦ rw e ((λ d. refl), (λ x d. omega (arith, covered v.balance f cs e x d)))
  | inr e ↦ let stuck : err invalid_coins ≡ ok tt = rw e at h in cc
]

burn_lem :
    (n : Bytes) (cs : Coins) (v : Vault)
    → (burn n cs v).0 ≡ ok tt
    → ((d : Bytes) → (burn n cs v).1.supply d + amount_of cs d ≡ v.supply d)
      × ((x d : Bytes)
          → (burn n cs v).1.balance x d + when (same n x) (amount_of cs d) ≡ v.balance x d)
unfolding burn
burn_lem n cs v h = elim (Bool-cases (enough (v.balance n) cs)) [
  | inl e ↦ elim (Bool-cases (enough v.supply cs)) [
    | inl e' ↦
        rw (e, e')
          (
            (λ d. omega (arith, enough_lem v.supply cs d e')),
            (λ x d. omega (arith, covered v.balance n cs e x d)),
          )
    | inr e' ↦ let stuck : err invalid_coins ≡ ok tt = rw (e, e') at h in cc
  ]
  | inr e ↦ let stuck : err invalid_coins ≡ ok tt = rw e at h in cc
]

pub counts-LedgerLaws : LedgerLaws vault counts
unfolding new_coins mint
counts-LedgerLaws = record {
  new_coins_one = λ c cs h. one_coin_ok c.denom c.amount cs h;
  mints = λ n cs v h. ((λ d. refl), (λ x d. refl));
  burns = burn_lem;
  pays = send-Pays;
  pays_out = send-Pays;
  pays_in = send-Pays;
  supply-fund_community_pool = λ cs f v d h. (send-Pays f (text "pool") cs v h).0 d;
  supply-consume_gas = λ n v d h. refl;
  supply-set_denom_metadata = λ m v d. refl;
}

from_positive : (k b : ℕ) → (0 < k → k + 0 ≤ b) → k ≤ b
from_positive zero b h = omega arith
from_positive (suc k) b h = omega (arith, h (omega arith))

-- Nothing is locked.
pub counts-FundsLaws : FundsLaws vault counts module_name
unfolding send burn
counts-FundsLaws = record {
  can_pay_in = λ f cs v h.
      rw (enough-covered (v.balance f) cs (λ d. from_positive (amount_of cs d) _ (h d))) refl;
  can_burn = λ cs v h k.
      rw (enough-covered (v.balance module_name) cs h, enough-covered v.supply cs k) refl;
}

pub vault-StoreLaws : StoreLaws vault
vault-StoreLaws = record {
  get-set = chain-StoreLaws.get-set;
  elem-iterate = chain-StoreLaws.elem-iterate;
}

pub vault-AddressLaws : AddressLaws vault
vault-AddressLaws = record {
  empty = chain-AddressLaws.empty;
  short = λ s h. chain-AddressLaws.short s h;
  print = λ s h. chain-AddressLaws.print s h;
}

pub vault-DenomLaws : DenomLaws vault
vault-DenomLaws = record { no_bar = chain-DenomLaws.no_bar }

send-known : (f t : Bytes) (cs : Coins) (v : Vault) → (send f t cs v).1.known ≡ v.known
unfolding send
send-known f t cs v = elim (Bool-cases (enough (v.balance f) cs)) [ inl e ↦ rw e | inr e ↦ rw e ]

burn-known : (n : Bytes) (cs : Coins) (v : Vault) → (burn n cs v).1.known ≡ v.known
unfolding burn
burn-known n cs v = elim (Bool-cases (enough (v.balance n) cs && enough v.supply cs)) [
  | inl e ↦ rw e
  | inr e ↦ rw e
]

pub vault-BankLaws : BankLaws vault
unfolding find mint
vault-BankLaws = record {
  base-new_metadata = λ u b. refl;
  get-set = λ m d v. refl;
  get-mint_coins = λ n a v d. refl;
  get-burn_coins = λ n a v d. ap (λ k. find k d) (burn-known n a v);
  get-send_coins_from_module_to_account = λ n t a v d. ap (λ k. find k d) (send-known n t a v);
  get-send_coins_from_account_to_module = λ f n a v d. ap (λ k. find k d) (send-known f n a v);
  get-send_coins = λ f t a v d. ap (λ k. find k d) (send-known f t a v);
  get-get_module_account = λ n v d. refl;
  get-fund_community_pool = λ a f v d. ap (λ k. find k d) (send-known f (text "pool") a v);
  get-consume_gas = λ n v d. refl;
}
