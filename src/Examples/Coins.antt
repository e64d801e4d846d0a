-- ===== src/Examples/Coins.antt =====
-- The theorems on the bank's ledger, on a bank that counts coins.
use tokenfactory.Base.{ℕ, ◌+◌, ◌≡◌, refl, [], ◌∷◌, none, false, arith}
use tokenfactory.Base.Bytes.{Bytes, text, same, contains, split, add_to_head}
use tokenfactory.Base.Outcome.{ok}
use tokenfactory.Env.{pos}
use tokenfactory.Env.Ledger.{when, of_denom}
use tokenfactory.Types.Keys.{denom_prefix_store, authority_key}
use tokenfactory.Types.Denoms.{deconstruct_denom, deconstruct_parts}
use tokenfactory.Types.Messages.{Msg, MsgMint, MsgBurn, MsgForceTransfer}
use tokenfactory.Codec.Authority.{
  marshal, unmarshal, unmarshal_from, unmarshal_field, unmarshal_admin,
}
use tokenfactory.Codec.Varint.{encode_varint, encode_groups, read_varint, read_varint_from}
use tokenfactory.Keeper.Exec.Laws.{>>=-ok}
use tokenfactory.Keeper.State.{State, Known}
use tokenfactory.Keeper.Admins.{get_authority_metadata}
use tokenfactory.Keeper.BankActions.{mint_to, burn_from, force_transfer_coins}
use tokenfactory.Keeper.BankActions.Laws.{Minted, Burnt, Moved}
use tokenfactory.Keeper.MsgServer.{
  check_admin, holds_module_account, handle_mint, handle_burn, handle_force_transfer, handle,
}
use tokenfactory.Keeper.MsgServer.Authority.{IsAdmin}
use tokenfactory.Keeper.MsgServer.Coins.{
  handle_mint-effect, handle_burn-effect, handle_force_transfer-effect,
}
use tokenfactory.Keeper.MsgServer.Reversal.{burn_back, handle_burn-handle_mint}
use tokenfactory.Keeper.Registry.{view, ArePermitted}
use tokenfactory.Keeper.Registry.Supply.{RunsFor, all_minted, all_burnt, RunsFor-supply}
use tokenfactory.Examples.Store.{lookup}
use tokenfactory.Examples.Chain.{find, address_from_bech32, validate_denom}
use tokenfactory.Examples.Vault.{
  vault, counts, new_coins, one_coin, magnitude, amount_of, enough, mint, burn, send,
  counts-LedgerLaws, counts-FundsLaws, vault-StoreLaws, vault-AddressLaws, vault-BankLaws,
  vault-DenomLaws,
}

abbrev alice : Bytes
alice = text "oalice"

abbrev gold : Bytes
gold = text "factory/oalice/gold"

-- The account of alice holds all ten pieces that there are.
abbrev held : State vault
held = record {
  store = (authority_key gold, marshal (record { admin = alice })) ∷ [];
  chain = record {
    known = gold ∷ [];
    supply = λ d. of_denom gold 10 d;
    balance = λ x d. when (same (text "alice") x) (of_denom gold 10 d);
  };
  events = [];
}

abbrev mint_gold : MsgMint
mint_gold = record {
  sender = alice;
  amount = record { denom = gold; amount = pos 5 };
  mint_to_address = [];
}

abbrev burn_gold : MsgBurn
burn_gold = record {
  sender = alice;
  amount = record { denom = gold; amount = pos 3 };
  burn_from_address = [];
}

abbrev move_gold : MsgForceTransfer
move_gold = record {
  sender = alice;
  amount = record { denom = gold; amount = pos 2 };
  transfer_from_address = alice;
  transfer_to_address = text "obob";
}

alice-IsAdmin : check_admin vault gold alice held ≡ (ok tt, held)
unfolding check_admin get_authority_metadata denom_prefix_store authority_key lookup marshal
    unmarshal unmarshal_from unmarshal_field unmarshal_admin read_varint read_varint_from
    encode_varint encode_groups same
alice-IsAdmin = refl

gold_parts : deconstruct_denom vault gold ≡ ok (alice, text "gold")
unfolding deconstruct_denom deconstruct_parts split add_to_head same contains address_from_bech32
    validate_denom
gold_parts = refl

mint_gold_ok : handle_mint vault mint_gold held ≡ (ok tt, (handle_mint vault mint_gold held).1)
unfolding handle_mint mint_to find same address_from_bech32 contains new_coins one_coin mint send
    enough magnitude amount_of
mint_gold_ok = rw (alice-IsAdmin, gold_parts)

burn_gold_ok : handle_burn vault burn_gold held ≡ (ok tt, (handle_burn vault burn_gold held).1)
unfolding handle_burn burn_from holds_module_account same address_from_bech32 contains new_coins
    one_coin burn send enough magnitude amount_of
burn_gold_ok = rw (alice-IsAdmin, gold_parts)

move_gold_ok :
    handle_force_transfer vault move_gold held
    ≡ (ok tt, (handle_force_transfer vault move_gold held).1)
unfolding handle_force_transfer force_transfer_coins same address_from_bech32 contains new_coins
    one_coin send enough magnitude amount_of
move_gold_ok = rw (alice-IsAdmin, gold_parts)

handle_mint-effect_example :
    Known vault held gold
    × IsAdmin vault held gold alice
    × (a : Bytes) × (n : ℕ) × (address_from_bech32 alice ≡ ok a)
    × (mint_gold.amount.amount ≡ pos n)
    × ((handle_mint vault mint_gold held).1.store ≡ held.store)
    × Minted vault counts gold n a held.chain (handle_mint vault mint_gold held).1.chain
unfolding same
handle_mint-effect_example =
    handle_mint-effect vault counts counts-LedgerLaws mint_gold held
      (handle_mint vault mint_gold held).1 mint_gold_ok

handle_burn-effect_example :
    IsAdmin vault held gold alice
    × (a : Bytes) × (n : ℕ) × (address_from_bech32 alice ≡ ok a)
    × (burn_gold.amount.amount ≡ pos n)
    × ((handle_burn vault burn_gold held).1.store ≡ held.store)
    × Burnt vault counts gold n a held.chain (handle_burn vault burn_gold held).1.chain
unfolding same
handle_burn-effect_example =
    handle_burn-effect vault counts counts-LedgerLaws burn_gold held
      (handle_burn vault burn_gold held).1 burn_gold_ok

handle_force_transfer-effect_example :
    IsAdmin vault held gold alice
    × (a b : Bytes) × (n : ℕ) × (address_from_bech32 alice ≡ ok a)
    × (address_from_bech32 (text "obob") ≡ ok b)
    × (move_gold.amount.amount ≡ pos n)
    × ((handle_force_transfer vault move_gold held).1.store ≡ held.store)
    × Moved vault counts gold n a b held.chain (handle_force_transfer vault move_gold held).1.chain
handle_force_transfer-effect_example =
    handle_force_transfer-effect vault counts counts-LedgerLaws move_gold held
      (handle_force_transfer vault move_gold held).1 move_gold_ok

mint_gold-handle :
    handle vault (Msg.mint mint_gold) held ≡ (ok none, (handle_mint vault mint_gold held).1)
unfolding handle
mint_gold-handle = >>=-ok (handle_mint vault mint_gold) _ held mint_gold_ok

ran : RunsFor vault counts gold (Msg.mint mint_gold ∷ []) held (handle_mint vault mint_gold held).1
ran = RunsFor.took mint_gold-handle (RunsFor.elsewhere refl refl RunsFor.done)

RunsFor-supply_example :
    ((handle_mint vault mint_gold held).1.chain.supply gold
        + all_burnt vault (Msg.mint mint_gold ∷ []) gold
      ≡ of_denom gold 10 gold + all_minted vault (Msg.mint mint_gold ∷ []) gold)
    × ArePermitted vault (Msg.mint mint_gold ∷ []) (view vault held)
RunsFor-supply_example =
    RunsFor-supply vault-StoreLaws vault-AddressLaws vault-BankLaws vault-DenomLaws
      counts-LedgerLaws ran

alice_plain :
    holds_module_account vault (vault.get_account (handle_mint vault mint_gold held).1.chain alice)
    ≡ false
unfolding holds_module_account same
alice_plain = refl

handle_burn-handle_mint_example :
    (u : State vault) × (handle_burn vault
        (burn_back mint_gold)
        (handle_mint vault mint_gold held).1
      ≡ (ok tt, u))
    × (u.store ≡ held.store)
    × ((d : Bytes) → u.chain.supply d ≡ held.chain.supply d)
    × ((x d : Bytes) → u.chain.balance x d ≡ held.chain.balance x d)
unfolding same
handle_burn-handle_mint_example =
    handle_burn-handle_mint vault counts counts-LedgerLaws counts-FundsLaws vault-StoreLaws
      vault-AddressLaws mint_gold held (handle_mint vault mint_gold held).1 mint_gold_ok alice_plain
      (λ a h. omega arith)
