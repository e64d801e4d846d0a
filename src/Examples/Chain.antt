-- ===== src/Examples/Chain.antt =====
-- A chain in memory on which the theorems are tried: the store as a list of writes, a bank that keeps
-- denom metadata and a ledger of the calls that it got, and addresses that
-- start with "o" and hold no "|".
use tokenfactory.Base.{
  arith, subst, inl, inr, Bool-cases, ℕ, ◌+◌, ◌≤◌, ◌≡◌, refl, ap, ◌∙◌, Option, none, some, List, [],
  ◌∷◌, length, Bool, true, false, if◌then◌else◌, ltb, ◌==◌,
}
use tokenfactory.Base.Bytes.{Bytes, text, same, contains}
use tokenfactory.Base.Outcome
use tokenfactory.Base.Outcome.{
  Outcome, ok, err, panic, invalid_address, invalid_denom, invalid_coins,
}
use tokenfactory.Env.{
  Env, StoreLaws, AddressLaws, DenomLaws, BankLaws, Coins, Coin, ℤ, unset, pos, negsuc, Effect,
  ParamPair, Value, coins, uint64, other,
}
use tokenfactory.Types.Keys.Separation.{bar}
use tokenfactory.Examples.Store.{lookup, iterate, Elem-iterate}

pub record Ledger : Type 0 where
  -- the bases of the denom metadata
  pub known : List Bytes
  pub moved : List (Bytes × (Bytes × Coins))
  pub gas : ℕ
  pub params : Coins × ℕ

unfoldable pub find : List Bytes → Bytes → Option Bytes
find [] d = none
find (b ∷ bs) d = if same b d then some b else find bs d

unfoldable pub address_from_bech32 : Bytes → Outcome Bytes
address_from_bech32 [] = err invalid_address
address_from_bech32 (b ∷ a) =
    if b == 111
    then (if ltb (length a) 100
        then (if contains bar a then err invalid_address else ok a)
        else err invalid_address)
    else err invalid_address

unfoldable pub validate_denom : Bytes → Outcome (Unit {0})
validate_denom d = Outcome.fail_if (contains bar d) invalid_denom

unfoldable pub move : Bytes → Bytes → Coins → Effect Ledger (Unit {0})
move from to amount c = (ok tt, record c { moved = (from, (to, amount)) ∷ c.moved })

unfoldable pub set_param : Value → Ledger → Ledger
set_param (coins v) c = record c { params = (v, c.params.1) }
set_param (uint64 n) c = record c { params = (c.params.0, n) }
set_param other c = c

unfoldable pub set_param_set : List ParamPair → Effect Ledger (Unit {0})
unfolding set_param
set_param_set [] c = (ok tt, c)
set_param_set (p ∷ ps) c = set_param_set ps (set_param p.value c)

unfoldable pub equal_zero : ℤ → Outcome Bool
equal_zero unset = panic invalid_coins
equal_zero (pos n) = ok (n == 0)
equal_zero (negsuc n) = ok false

unfoldable pub is_valid : Coin → Outcome Bool
is_valid c = elim c.amount [ unset ↦ panic invalid_coins | pos n ↦ ok true | negsuc n ↦ ok false ]

abbrev pub chain : Env
chain = record {
  Store = List (Bytes × Bytes);
  Chain = Ledger;
  Metadata = Bytes;
  Account = Bool;
  kv_get = λ s k. lookup k s;
  kv_set = λ k v s. (k, v) ∷ s;
  kv_iterate = iterate;
  validate_denom = validate_denom;
  address_from_bech32 = address_from_bech32;
  address_string = λ a. 111 ∷ a;
  new_coins = λ cs. ok (some cs);
  coins_validate = λ cs. ok tt;
  coin_is_valid = is_valid;
  equal_zero = equal_zero;
  coin_string = λ c. c.denom;
  new_metadata = λ u b. b;
  base = λ m. m;
  metadata_validate = λ m. ok tt;
  metadata_string = λ m. m;
  get_denom_metadata = λ c d. find c.known d;
  set_denom_metadata = λ m c. record c { known = m ∷ c.known };
  has_supply = λ c d. false;
  mint_coins = λ n a. move [] n a;
  burn_coins = λ n a. move n [] a;
  send_coins_from_module_to_account = move;
  send_coins_from_account_to_module = move;
  send_coins = move;
  get_account = λ c a. if same a (text "pool") then some true else some false;
  is_module_account = λ a. a;
  get_module_account = λ n c. (ok tt, c);
  fund_community_pool = λ a f. move f (text "pool") a;
  consume_gas = λ n c. (ok tt, record c { gas = c.gas + n });
  get_param_set = λ c. ok c.params;
  set_param_set = set_param_set;
}

pub chain-StoreLaws : StoreLaws chain
unfolding lookup
chain-StoreLaws = record { get-set = λ k j v s. refl; elem-iterate = Elem-iterate }

pub chain-BankLaws : BankLaws chain
unfolding find move
chain-BankLaws = record {
  base-new_metadata = λ u b. refl;
  get-set = λ m d c. refl;
  get-mint_coins = λ n a c d. refl;
  get-burn_coins = λ n a c d. refl;
  get-send_coins_from_module_to_account = λ n t a c d. refl;
  get-send_coins_from_account_to_module = λ f n a c d. refl;
  get-send_coins = λ f t a c d. refl;
  get-get_module_account = λ n c d. refl;
  get-fund_community_pool = λ a f c d. refl;
  get-consume_gas = λ n c d. refl;
}

pub chain-DenomLaws : DenomLaws chain
unfolding validate_denom
chain-DenomLaws = record { no_bar = λ d h. Outcome.fail_if-eq-ok (contains bar d) invalid_denom h }

decodes-short :
    (s : Bytes) {a : Bytes}
    → address_from_bech32 s ≡ ok a
    → (length s ≤ 1023) × (s ≡ 111 ∷ a) × (contains bar a ≡ false)
unfolding address_from_bech32
decodes-short [] h = cc
decodes-short (b ∷ r) {a} h = elim (Bool-cases (b == 111)) [
  | inl e ↦ elim (Bool-cases (ltb (length r) 100)) [
    | inl f ↦ elim (Bool-cases (contains bar r)) [
      | inl g ↦ let clash : err invalid_address ≡ ok a = rw (e, f, g) at h in cc
      | inr g ↦
          let tail : ok r ≡ ok a = rw (e, f, g) at h in
          let head : b ≡ 111 = ground (arith, e) in
          let same_tail : r ≡ a = Outcome.ok-injective tail in
          (
            ground (arith, f),
            ap (λ x. x ∷ r) head ∙ ap (λ x. 111 ∷ x) same_tail,
            subst (λ x. contains bar x ≡ false) same_tail g,
          )
    ]
    | inr f ↦ let clash : err invalid_address ≡ ok a = rw (e, f) at h in cc
  ]
  | inr e ↦ let clash : err invalid_address ≡ ok a = rw e at h in cc
]

decodes-print :
    (s : Bytes) {a : Bytes} → address_from_bech32 s ≡ ok a → address_from_bech32 (111 ∷ a) ≡ ok a
decodes-print s {a} h =
    let (_, shape, _) = decodes-short s h in subst (λ x. address_from_bech32 x ≡ ok a) shape h

pub decodes-shape : (s : Bytes) {a : Bytes} → address_from_bech32 s ≡ ok a → s ≡ 111 ∷ a
decodes-shape s h = let (_, shape, _) = decodes-short s h in shape

pub printed_no_bar :
    (s : Bytes) {a : Bytes} → address_from_bech32 s ≡ ok a → contains bar (111 ∷ a) ≡ false
unfolding contains
printed_no_bar s h = let (_, _, free) = decodes-short s h in free

pub chain-AddressLaws : AddressLaws chain
unfolding address_from_bech32
chain-AddressLaws = record {
  empty = (invalid_address, refl);
  short = λ s h. (decodes-short s h).0;
  print = decodes-print;
}
