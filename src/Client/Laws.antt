-- ===== src/Client/Laws.antt =====
-- What the commands send, and that one of them sends nothing.
use tokenfactory.Base.{◌≡◌, ◌≢◌, refl, sym, ◌∙◌, List, [], ◌∷◌, length, arith}
use tokenfactory.Base.Bytes.{Bytes}
use tokenfactory.Base.Outcome.{Outcome, ok, err, panic}
use tokenfactory.Env.{Env, Coin}
use tokenfactory.Types.Messages.{Msg}
use tokenfactory.Keeper.Exec.{Exec, after, lift, asks, ◌>>=◌, ◌>>◌}
use tokenfactory.Keeper.Exec.Laws.{Fails}
use tokenfactory.Keeper.MsgServer.Refuses.{Refuses, Refuses-lift, Refuses-asks}
use tokenfactory.Client.Cobra.{Cli, CliLaws, arg, execute}
use tokenfactory.Client.Tx.{new_create_denom_cmd, new_mint_cmd, new_burn_cmd, new_change_admin_cmd}

module _ {env : Env} (cli : Cli env) where
  -- The printed address of the account that sends.
  abbrev pub own_address : cli.Context → Bytes
  own_address ctx = env.address_string (cli.get_from_address ctx)

  -- One argument, which is the subdenom.
  abbrev pub CreatesDenom : List Bytes → cli.Context → Msg env → Type 0
  CreatesDenom args ctx m =
      (sub : Bytes) × (args ≡ sub ∷ [])
      × (m ≡ Msg.create_denom (record { sender = own_address ctx; subdenom = sub }))

  -- One argument, which is a coin; the coin is minted to the sender.
  abbrev pub Mints : List Bytes → cli.Context → Msg env → Type 0
  Mints args ctx m =
      (t : Bytes) × (c : Coin) × (args ≡ t ∷ [])
      × (cli.parse_coin_normalized t ≡ ok c)
      × (m ≡ Msg.mint (record { sender = own_address ctx; amount = c; mint_to_address = [] }))

  -- One argument, which is a coin; the coin is burnt from the sender.
  abbrev pub Burns : List Bytes → cli.Context → Msg env → Type 0
  Burns args ctx m =
      (t : Bytes) × (c : Coin) × (args ≡ t ∷ [])
      × (cli.parse_coin_normalized t ≡ ok c)
      × (m ≡ Msg.burn (record { sender = own_address ctx; amount = c; burn_from_address = [] }))

  module _ (w : cli.World) where
    -- How a command ends: it hands over the message that it is to make, or it fails and has touched
    -- nothing, and then there is no message that it is to make.
    pub data Ending (P : cli.Context → Msg env → Type 0)
        : Outcome (Unit {0}) × cli.World → Type 0 where
      refused :
          {r : Outcome (Unit {0})}
          → Fails r
          → ((ctx : cli.Context) (m : Msg env) → cli.get_client_tx_context w ≡ ok ctx → ¬ P ctx m)
          → Ending P (r, w)
      sent :
          (ctx : cli.Context) (m : Msg env)
          → cli.get_client_tx_context w ≡ ok ctx
          → P ctx m
          → Ending P (cli.generate_or_broadcast ctx (cli.new_factory_cli ctx) m w)

    module _ (P : cli.Context → Msg env → Type 0) where
      Ending-lift :
          {A : Type 0} (r : Outcome A) (k : A → Exec cli.World (Unit {0}))
          → ((ctx : cli.Context) (m : Msg env) → P ctx m → (a : A) × (r ≡ ok a))
          → ((a : A) → r ≡ ok a → Ending P (k a w))
          → Ending P ((lift r >>= k) w)
      Ending-lift (ok a) k only h = h a refl
      Ending-lift (err e) k only h = refused tt (λ ctx m _ p. let (a, clash) = only ctx m p in cc)
      Ending-lift (panic e) k only h = refused tt (λ ctx m _ p. let (a, clash) = only ctx m p in cc)

      Ending-context :
          (k : cli.Context → Exec cli.World (Unit {0}))
          → ((ctx : cli.Context) → cli.get_client_tx_context w ≡ ok ctx → Ending P (k ctx w))
          → Ending P ((asks cli.get_client_tx_context >>= k) w)
      Ending-context k h = go (cli.get_client_tx_context w) refl
        where
          go :
              (r : Outcome cli.Context)
              → cli.get_client_tx_context w ≡ r
              → Ending P (after k (r, w))
          go (ok ctx) e = h ctx e
          go (err x) e = refused tt (λ ctx m found p. let clash = sym e ∙ found in cc)
          go (panic x) e = refused tt (λ ctx m found p. let clash = sym e ∙ found in cc)

only_argument :
    (args : List Bytes) (a : Bytes) → length args ≡ 1 → arg 0 args ≡ ok a → args ≡ a ∷ []
unfolding arg
only_argument [] a h e = cc
only_argument (x ∷ []) a h e = cc
only_argument (x ∷ (y ∷ r)) a h e = absurd (omega (arith, h))

arg_one : (args : List Bytes) (a : Bytes) → args ≡ a ∷ [] → arg 0 args ≡ ok a
unfolding arg
arg_one args a e = rw e refl

length_one : (args : List Bytes) (a : Bytes) → args ≡ a ∷ [] → length args ≡ 1
length_one args a e = rw e refl

module _ {env : Env} (cli : Cli env) (laws : CliLaws env cli) (w : cli.World)
    (args : List Bytes) where
  accepted : (a : Bytes) → args ≡ a ∷ [] → (u : Unit {0}) × (cli.exact_args 1 args ≡ ok u)
  accepted a e = (tt, laws.accepts 1 args (length_one args a e))

  -- A command that takes one argument and reads it.
  one_argument-Ending :
      (P : cli.Context → Msg env → Type 0) (k : cli.Context → Bytes → Exec cli.World (Unit {0}))
      → ((ctx : cli.Context) (m : Msg env) → P ctx m → (a : Bytes) × (args ≡ a ∷ []))
      → ((ctx : cli.Context) (a : Bytes)
          → cli.get_client_tx_context w ≡ ok ctx
          → args ≡ a ∷ []
          → Ending cli w P (k ctx a w))
      → Ending cli w P (
          (lift (cli.exact_args 1 args) >>= λ _.
          asks cli.get_client_tx_context >>= λ ctx. lift (arg 0 args) >>= k ctx)
            w)
  one_argument-Ending P k shape h =
      Ending-lift cli w P (cli.exact_args 1 args) _
        (λ ctx m p. let (a, e) = shape ctx m p in accepted a e)
        λ _ one. Ending-context cli w P _ λ ctx found.
          Ending-lift cli w P (arg 0 args) _
            (λ ctx' m p. let (a, e) = shape ctx' m p in (a, arg_one args a e))
            λ a first. h ctx a found (only_argument args a (laws.only 1 args one) first)

  new_create_denom_cmd-Ending :
      Ending cli w (CreatesDenom cli args) (execute cli (new_create_denom_cmd cli) args w)
  unfolding execute new_create_denom_cmd
  new_create_denom_cmd-Ending =
      one_argument-Ending (CreatesDenom cli args) _ (λ ctx m p. (p.0, p.1))
        (λ ctx a found e. sent ctx _ found (a, e, refl))

  -- The coin that the argument stands for, where it is one.
  coin_read :
      {t t' : Bytes} {c : Coin}
      → args ≡ t ∷ []
      → args ≡ t' ∷ []
      → cli.parse_coin_normalized t' ≡ ok c
      → cli.parse_coin_normalized t ≡ ok c
  coin_read {t} {t'} e e' h = let same : t ≡ t' = cc in rw same h

  new_mint_cmd-Ending : Ending cli w (Mints cli args) (execute cli (new_mint_cmd cli) args w)
  unfolding execute new_mint_cmd
  new_mint_cmd-Ending =
      one_argument-Ending (Mints cli args) _ (λ ctx m p. (p.0, p.2))
        λ ctx t found e.
          Ending-lift cli w (Mints cli args) (cli.parse_coin_normalized t) _
            (λ ctx' m p. (p.1, coin_read e p.2 p.3))
            (λ c parsed. sent ctx _ found (t, c, e, parsed, refl))

  new_burn_cmd-Ending : Ending cli w (Burns cli args) (execute cli (new_burn_cmd cli) args w)
  unfolding execute new_burn_cmd
  new_burn_cmd-Ending =
      one_argument-Ending (Burns cli args) _ (λ ctx m p. (p.0, p.2))
        λ ctx t found e.
          Ending-lift cli w (Burns cli args) (cli.parse_coin_normalized t) _
            (λ ctx' m p. (p.1, coin_read e p.2 p.3))
            (λ c parsed. sent ctx _ found (t, c, e, parsed, refl))

-- The commands that create a denom, mint and burn each hand over the one message that their argument asks
-- for: to create the denom, to mint the coin to the sender or to burn it from the sender, where the
-- sender is the printed address of the account that sends. They do so exactly if there is one argument,
-- which must stand for a coin in the two latter, and a context; in all other cases they fail and touch
-- nothing.
pub tx_cmds-Ending :
    {env : Env} (cli : Cli env) (laws : CliLaws env cli) (w : cli.World) (args : List Bytes)
    → Ending cli w (CreatesDenom cli args) (execute cli (new_create_denom_cmd cli) args w)
      × Ending cli w (Mints cli args) (execute cli (new_mint_cmd cli) args w)
      × Ending cli w (Burns cli args) (execute cli (new_burn_cmd cli) args w)
tx_cmds-Ending cli laws w args = (
  new_create_denom_cmd-Ending cli laws w args,
  new_mint_cmd-Ending cli laws w args,
  new_burn_cmd-Ending cli laws w args,
)

second_of_one : (args : List Bytes) {a : Bytes} → length args ≡ 1 → arg 1 args ≢ ok a
unfolding arg
second_of_one [] h e = omega (arith, h)
second_of_one (x ∷ []) h e = cc
second_of_one (x ∷ (y ∷ r)) h e = omega (arith, h)

module _ {env : Env} (cli : Cli env) (laws : CliLaws env cli) (w : cli.World)
    (args : List Bytes) where
  run_e-Refuses :
      (r : Outcome (Unit {0})) (k : Exec cli.World (Unit {0}))
      → cli.exact_args 1 args ≡ r
      → (length args ≡ 1 → Refuses k w)
      → Refuses (lift r >> k) w
  run_e-Refuses (ok u) k e h = h (laws.only 1 args e)
  run_e-Refuses (err x) k e h = record { failed = tt; unchanged = refl }
  run_e-Refuses (panic x) k e h = record { failed = tt; unchanged = refl }

  no_second-Refuses :
      (k : Bytes → Exec cli.World (Unit {0})) (r : Outcome Bytes)
      → arg 1 args ≡ r
      → length args ≡ 1
      → Refuses (lift r >>= k) w
  no_second-Refuses k (ok a) e h = absurd (second_of_one args h e)
  no_second-Refuses k (err x) e h = record { failed = tt; unchanged = refl }
  no_second-Refuses k (panic x) e h = record { failed = tt; unchanged = refl }

-- The command that changes an admin never does: it accepts one argument alone and reads a second, so
-- whatever the arguments it fails and hands over no message.
pub new_change_admin_cmd-Refuses :
    {env : Env} (cli : Cli env) (laws : CliLaws env cli) (w : cli.World) (args : List Bytes)
    → Refuses (execute cli (new_change_admin_cmd cli) args) w
unfolding execute new_change_admin_cmd
new_change_admin_cmd-Refuses cli laws w args =
    run_e-Refuses cli laws w args (cli.exact_args 1 args) _ refl λ one.
      Refuses-asks w cli.get_client_tx_context _ λ ctx e.
        Refuses-lift w (arg 0 args) _ λ d. no_second-Refuses cli laws w args _ (arg 1 args) refl one
