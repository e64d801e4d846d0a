-- ===== src/Examples/Tools.antt =====
-- A command line, a gateway, a simulator and a set of simulation parameters in memory.
use tokenfactory.Base.{
  ℕ, zero, suc, ◌≤◌, ◌<◌, ◌≡◌, refl, sym, ap, Option, none, some, List, [], ◌∷◌, ◌++◌, length, Bool,
  true, false, if◌then◌else◌, ltb, ◌==◌, arith,
}
use tokenfactory.Base.Bytes.{Bytes, text, same}
use tokenfactory.Base.Outcome
use tokenfactory.Base.Outcome.{
  Outcome, ok, err, panic, invalid_argument, index_out_of_range, invalid_coins,
}
use tokenfactory.Env.{Coin, ℤ, unset, pos, negsuc}
use tokenfactory.Types.Messages.{Msg}
use tokenfactory.Keeper.Exec.{Exec}
use tokenfactory.Keeper.State.{State}
use tokenfactory.Client.Cobra.{Cli, CliLaws}
use tokenfactory.Gateway.Runtime.{Runtime}
use tokenfactory.Gateway.Laws.{RuntimeLaws}
use tokenfactory.Simulation.Random.{Random, RandomLaws}
use tokenfactory.Simulation.Accounts.{Simulator}
use tokenfactory.Simulation.Weights.{Weights, AppParams, AppParamsLaws, op_weight_msg_mint_denom}
use tokenfactory.Simulation.Deliveries.{SimulatorLaws}
use tokenfactory.Examples.Chain.{chain, equal_zero}

abbrev accept : Outcome (Unit {0})
accept = ok tt

-- The world of the commands is the list of what was handed over; "alice" is at the keyboard.
unfoldable pub exact_args : ℕ → List Bytes → Outcome (Unit {0})
exact_args n args = if length args == n then ok tt else err invalid_argument

abbrev pub command_line : Cli chain
command_line = record {
  World = List (Msg chain);
  Context = Bytes;
  Factory = Unit;
  exact_args = exact_args;
  get_client_tx_context = λ w. ok (text "alice");
  get_client_query_context = λ w. ok (text "alice");
  get_from_address = λ c. c;
  new_factory_cli = λ c. tt;
  parse_coin_normalized = λ t. ok (record { denom = t; amount = pos 1 });
  generate_or_broadcast = λ c f m w. (ok tt, m ∷ w);
  denom_authority_metadata = λ c q w. (ok (record { admin = [] }), w);
  denoms_from_creator = λ c q w. (ok [], w);
  print_authority_metadata = λ c m w. (ok tt, w);
  print_denoms = λ c ds w. (ok tt, w);
}

pub command_line-CliLaws : CliLaws chain command_line
unfolding exact_args
command_line-CliLaws = record {
  accepts = λ n args h. ground (arith, h);
  only = λ n args h. only (length args == n) (length args) n refl h;
}
  where
    only :
        (b : Bool) (k n : ℕ)
        → (k == n) ≡ b
        → (if b then accept else err invalid_argument) ≡ accept
        → k ≡ n
    only true k n e h = ground (arith, e)
    only false k n e h = cc

-- A request is the state that it finds; headers are lists of texts.
abbrev pub runtime : Runtime
runtime = record {
  Context = State chain;
  Request = State chain;
  Metadata = List Bytes;
  no_metadata = [];
  join = λ a b. a ++ b;
  annotate_incoming_context = λ r. ok r;
  annotate_context = λ r. ok r;
  request_context = λ r. r;
  new_server_metadata_context = λ r md. r;
  string = λ v. ok v;
}

pub runtime-RuntimeLaws : RuntimeLaws runtime
runtime-RuntimeLaws = record { string_same = λ v. refl; join_none = λ md. refl }

-- A source that counts: a draw is the count, or 0 where the bound is not above it.
unfoldable pub bounded : ℕ → ℕ → ℕ
bounded n r = if ltb r n then r else 0

unfoldable pub intn : ℤ → Exec ℕ ℕ
unfolding bounded
intn (pos (suc n)) r = (ok (bounded (suc n) r), suc r)
intn (pos zero) r = (panic invalid_argument, r)
intn unset r = (panic invalid_argument, r)
intn (negsuc n) r = (panic invalid_argument, r)

abbrev pub counter : Random
counter = record {
  Rand = ℕ;
  intn = intn;
  big_rand = λ n r. (bounded n r, suc r);
  rand_string_of_length = λ n r. (ok (text "gold"), suc r);
}

bounded-below : (n r : ℕ) → bounded (suc n) r ≤ n
unfolding bounded
bounded-below n r = ground arith

intn_below : (n : ℕ) (r r' : ℕ) {k : ℕ} → intn (pos n) r ≡ (ok k, r') → k < n
unfolding intn
intn_below zero r r' h = cc
intn_below (suc n) r r' {k} h =
    let drawn : bounded (suc n) r ≡ k = Outcome.ok-injective (ap (λ x. x.0) h) in
    omega (arith, drawn, bounded-below n r)

pub counter-RandomLaws : RandomLaws counter
unfolding bounded
counter-RandomLaws = record {
  intn_below = intn_below;
  big_rand_below = bounded-below;
  big_rand_zero = λ r. ground arith;
}

unfoldable pub new_coin : Bytes → ℤ → Outcome Coin
new_coin d (pos n) = ok (record { denom = d; amount = pos n })
new_coin d unset = panic invalid_coins
new_coin d (negsuc n) = panic invalid_coins

new_coin_same :
    (d : Bytes) (n : ℤ) {c : Coin} → new_coin d n ≡ ok c → c ≡ record { denom = d; amount = n }
unfolding new_coin
new_coin_same d (pos n) h = sym (Outcome.ok-injective h)
new_coin_same d unset h = cc
new_coin_same d (negsuc n) h = cc

-- Accounts are addresses, and each has 9 of every denom.
abbrev pub simulator : Simulator chain
simulator = record {
  random = counter;
  Account = Bytes;
  address = λ a. a;
  spendable_coins = λ c a. some [];
  get_balance = λ c a d. record { denom = d; amount = pos 9 };
  is_all_gte = λ c d. true;
  denoms_subset_of = λ c d. true;
  is_zero = λ c. equal_zero c.amount;
  new_coin = new_coin;
  default_weight_msg_send = 100;
}

pub simulator-SimulatorLaws : SimulatorLaws simulator
simulator-SimulatorLaws = record { random = counter-RandomLaws; new_coin_same = new_coin_same }

-- Parameters that give the weight of the mint alone.
unfoldable pub supplied : Bytes → Option ℕ
supplied key = if same key op_weight_msg_mint_denom then some 5 else none

unfoldable pub written_or_made :
    Option ℕ → (ℕ → Weights → Weights) → (Weights → Weights) → Weights → Weights
written_or_made none write make w = make w
written_or_made (some v) write make w = write v w

abbrev pub app_params : AppParams
app_params = record {
  supplied = supplied;
  get_or_generate = λ key write make w. written_or_made (supplied key) write make w;
}

pub app_params-AppParamsLaws : AppParamsLaws app_params
unfolding written_or_made
app_params-AppParamsLaws = record {
  present = λ key write make w h. rw h;
  absent = λ key write make w h. rw h;
}
