-- ===== src/Keeper/MsgServer/Reversal.antt =====
-- A Mint can be taken back by a Burn.
use tokenfactory.Base.{
  ℕ, ◌+◌, ◌≤◌, ◌<◌, ◌≡◌, refl, sym, ap, subst, ◌∙◌, false, not, [], ◌∷◌, arith, inl, inr,
}
use tokenfactory.Base.Bytes.{Bytes, same, same-cases, same_refl}
use tokenfactory.Base.Outcome.{ok, ok-injective, fail_if, denom_does_not_exist}
use tokenfactory.Env.{Env, Coin, Coins, pos, StoreLaws, AddressLaws}
use tokenfactory.Env.Ledger.{Ledger, LedgerLaws, FundsLaws, when, of_denom}
use tokenfactory.Types.Keys.{module_name}
use tokenfactory.Types.Denoms.{deconstruct_denom}
use tokenfactory.Types.Messages.{MsgMint, MsgBurn}
use tokenfactory.Keeper.Exec.Laws.{>>=-eq-ok}
use tokenfactory.Keeper.State.{State}
use tokenfactory.Keeper.BankActions.{mint_to, burn_from}
use tokenfactory.Keeper.BankActions.Laws.{Minted, Burnt, lift-then}
use tokenfactory.Keeper.CreateDenom.{is_some}
use tokenfactory.Keeper.MsgServer.{
  check_admin, default_to, holds_module_account, handle_mint, handle_burn,
}
use tokenfactory.Keeper.MsgServer.Authority.{IsAdmin}
use tokenfactory.Keeper.MsgServer.Outcomes.{same_store-get_authority_metadata}
use tokenfactory.Keeper.MsgServer.Progress.{check_admin-IsAdmin}
use tokenfactory.Keeper.MsgServer.Coins.{handle_mint-effect, handle_burn-effect}

-- The Burn of what the Mint has minted, from the account that it was minted to.
abbrev pub burn_back : MsgMint → MsgBurn
burn_back m = record { sender = m.sender; amount = m.amount; burn_from_address = m.mint_to_address }

pos-injective : {k n : ℕ} → pos k ≡ pos n → k ≡ n
pos-injective h = cc

module _ (env : Env) where
  -- The denom of a coin that was minted can be taken apart, and the coin is a set of coins.
  record IsMintable (amount : Coin) : Type 0 where
    parts : Bytes × Bytes
    taken_apart : deconstruct_denom env amount.denom ≡ ok parts
    coins : Coins
    is_set : env.new_coins (amount ∷ []) ≡ ok coins

  mint_to-IsMintable :
      (amount : Coin) (to : Bytes) (s t : State env)
      → mint_to env amount to s ≡ (ok tt, t)
      → IsMintable amount
  unfolding mint_to
  mint_to-IsMintable amount to s t h =
      let (p, parted, k0) = lift-then (deconstruct_denom env amount.denom) _ s h in
      let (cs, made, _) = lift-then (env.new_coins (amount ∷ [])) _ s k0 in
      record { parts = p; taken_apart = parted; coins = cs; is_set = made }

  handle_mint-IsMintable :
      (m : MsgMint) (s t : State env) → handle_mint env m s ≡ (ok tt, t) → IsMintable m.amount
  unfolding handle_mint
  handle_mint-IsMintable m s t h =
      let (_, _, k1) =
        lift-then
          (fail_if (not (is_some (env.get_denom_metadata s.chain m.amount.denom)))
            denom_does_not_exist)
          _ s h in
      let (_, s1, _, k2) = >>=-eq-ok (check_admin env m.amount.denom m.sender) _ s k1 in
      let (_, s2, e, _) =
        >>=-eq-ok (mint_to env m.amount (default_to m.sender m.mint_to_address)) _ s1 k2 in
      mint_to-IsMintable m.amount _ s1 s2 e

  -- burnFrom goes through where both calls of the bank do.
  burn_from-goes :
      (amount : Coin) (from : Bytes) (s : State env) {a : Bytes} (w : IsMintable amount)
      → env.address_from_bech32 from ≡ ok a
      → (env.send_coins_from_account_to_module a module_name w.coins s.chain).0 ≡ ok tt
      → (env.burn_coins module_name w.coins
          (env.send_coins_from_account_to_module a module_name w.coins s.chain).1).0
        ≡ ok tt
      → (burn_from env amount from s).0 ≡ ok tt
  unfolding burn_from
  burn_from-goes amount from s w decodes sent burnt =
      rw (w.taken_apart, decodes, w.is_set, sent) (rw w.is_set burnt)

  handle_burn-goes :
      (m : MsgBurn) (s : State env)
      → IsAdmin env s m.amount.denom m.sender
      → holds_module_account env (env.get_account s.chain (default_to m.sender m.burn_from_address))
        ≡ false
      → (burn_from env m.amount (default_to m.sender m.burn_from_address) s).0 ≡ ok tt
      → (handle_burn env m s).0 ≡ ok tt
  unfolding handle_burn
  handle_burn-goes m s admin plain burnt =
      rw (check_admin-IsAdmin env m.amount.denom m.sender s admin, plain, burnt) refl

module _ (env : Env) (ledger : Ledger env) (laws : LedgerLaws env ledger)
    (funds : FundsLaws env ledger module_name) where
  open ledger use {supply, balance, amount_of, module_address}

  -- An account that holds coins has paid them to the module account, which then holds them, also where
  -- it is the same account.
  passed_on :
      (a m d : Bytes) (k : ℕ) (c c' : env.Chain)
      → balance c' m d + when (same a m) k ≡ balance c m d + when (same m m) k
      → k ≤ balance c a d
      → k ≤ balance c' m d
  passed_on a m d k c c' paid there = elim (same-cases a m) [
    | inl (p, q) ↦
        omega (arith, rw (q, same_refl m) at paid, subst (λ x. k ≤ balance c x d) p there)
    | inr (_, q) ↦ omega (arith, rw (q, same_refl m) at paid)
  ]

  -- Coins of one denom, beyond what is locked of it.
  unlocked_lem :
      (denom : Bytes) (n : ℕ) (amount locked held : Bytes → ℕ)
      → ((d : Bytes) → amount d ≡ of_denom denom n d)
      → n + locked denom ≤ held denom
      → (d : Bytes) → 0 < amount d
      → amount d + locked d ≤ held d
  unlocked_lem denom n amount locked held amounts free d positive = elim (same-cases denom d) [
    | inl (p, q) ↦ omega (arith, rw q at (amounts d), subst (λ x. n + locked x ≤ held x) p free)
    | inr (_, q) ↦ omega (arith, rw q at (amounts d), positive)
  ]

  -- What was minted to an account is there for burnFrom, on the account and on the way through the
  -- module account, be they one or two.
  burn_from-Minted :
      (amount : Coin) (from : Bytes) (s t : State env) {a : Bytes} {n : ℕ}
      → IsMintable env amount
      → env.address_from_bech32 from ≡ ok a
      → amount.amount ≡ pos n
      → Minted env ledger amount.denom n a s.chain t.chain
      → ledger.locked t.chain a amount.denom ≤ balance s.chain a amount.denom
      → (burn_from env amount from t).0 ≡ ok tt
  burn_from-Minted amount from s t {a} {n} w decodes e minted locked =
      let (k, e', amounts) = laws.new_coins_one amount w.coins w.is_set in
      let same_amount : k ≡ n = pos-injective (sym e' ∙ e) in
      let of_k = λ (d : Bytes). ap (λ j. of_denom amount.denom j d) same_amount in
      let there : (d : Bytes) → amount_of w.coins d ≤ balance t.chain a d =
        λ d. omega (arith, rw same_refl at (minted.held a d), amounts d, of_k d) in
      let free : k + ledger.locked t.chain a amount.denom ≤ balance t.chain a amount.denom =
        ground (
          arith,
          minted.held a amount.denom,
          same_refl a,
          same_refl amount.denom,
          same_amount,
          locked,
        ) in
      let sent = funds.can_pay_in a w.coins t.chain (
        unlocked_lem amount.denom k (amount_of w.coins) (ledger.locked t.chain a)
          (balance t.chain a) amounts free) in
      let (kept, paid) = laws.pays_in a module_name w.coins t.chain sent in
      burn_from-goes env amount from t w decodes sent (
        funds.can_burn w.coins _
          (λ d.
            passed_on a (module_address module_name) d _ t.chain _
              (paid (module_address module_name) d) (there d))
          (λ d. omega (arith, minted.supplied d, kept d, amounts d, of_k d)))

  -- Behind a Mint that went through, the Burn of the same coins from the account that they were minted to
  -- goes through, and the module's store, the supply of each denom and what each account holds of it are
  -- then what they were before the Mint. The conditions: the module's account is registered with the
  -- permission to burn; of the denom no more is locked on the account than it held before the Mint; and
  -- the account that the handler looks up, at the bytes of the text and not at the address that the text
  -- stands for, is no module's. The account that is burnt from may well be a module's.
  pub handle_burn-handle_mint :
      (stores : StoreLaws env) (addresses : AddressLaws env) (m : MsgMint) (s t : State env)
      → handle_mint env m s ≡ (ok tt, t)
      → holds_module_account env (env.get_account t.chain (default_to m.sender m.mint_to_address))
        ≡ false
      → ((a : Bytes)
          → env.address_from_bech32 (default_to m.sender m.mint_to_address) ≡ ok a
          → ledger.locked t.chain a m.amount.denom ≤ balance s.chain a m.amount.denom)
      → (u : State env) × (handle_burn env (burn_back m) t ≡ (ok tt, u))
        × (u.store ≡ s.store)
        × ((d : Bytes) → supply u.chain d ≡ supply s.chain d)
        × ((x d : Bytes) → balance u.chain x d ≡ balance s.chain x d)
  handle_burn-handle_mint stores addresses m s t h plain unlocked =
      let (_, admin, a, n, decodes, e, stored, minted) =
        handle_mint-effect env ledger laws m s t h in
      let w = handle_mint-IsMintable env m s t h in
      let still =
        same_store-get_authority_metadata env stores addresses m.amount.denom s t stored ∙ admin in
      let goes = handle_burn-goes env (burn_back m) t still plain (
        burn_from-Minted m.amount (default_to m.sender m.mint_to_address) s t w decodes e minted
          (unlocked a decodes)) in
      let u = (handle_burn env (burn_back m) t).1 in
      let gone : handle_burn env (burn_back m) t ≡ (ok tt, u) = ap (λ r. (r, u)) goes in
      let (_, a', n', decodes', e', stored', burnt) =
        handle_burn-effect env ledger laws (burn_back m) t u gone in
      let same_account : a' ≡ a = ok-injective (sym decodes' ∙ decodes) in
      let same_amount : n' ≡ n = pos-injective (sym e' ∙ e) in
      let back : Burnt env ledger m.amount.denom n a t.chain u.chain =
        subst (λ x. Burnt env ledger m.amount.denom n x t.chain u.chain) same_account
          (subst (λ k. Burnt env ledger m.amount.denom k a' t.chain u.chain) same_amount burnt) in
      (
        u,
        gone,
        stored' ∙ stored,
        (λ d. omega (arith, minted.supplied d, back.supplied d)),
        (λ x d. omega (arith, minted.held x d, back.held x d)),
      )
