-- ===== src/Keeper/Registry/Supply.antt =====
-- Where the coins of a denom come from, along any run.
use tokenfactory.Base.{ℕ, ◌+◌, ◌≡◌, List, [], ◌∷◌, Option, arith}
use tokenfactory.Base.Bytes.{Bytes}
use tokenfactory.Base.Outcome.{ok}
use tokenfactory.Env.{Env, StoreLaws, AddressLaws, BankLaws, DenomLaws}
use tokenfactory.Env.Ledger.{Ledger, LedgerLaws}
use tokenfactory.Types.Messages.{Msg}
use tokenfactory.Keeper.State.{State}
use tokenfactory.Keeper.MsgServer.{handle}
use tokenfactory.Keeper.MsgServer.Supply.{minted, burnt, handle-supply}
use tokenfactory.Keeper.Registry.{view, ArePermitted}
use tokenfactory.Keeper.Registry.Run.{Runs, Runs-Agrees}

-- A run on which no other module makes or destroys coins of the denom `d`, as the bank lets none do
-- that does not own it.
pub data RunsFor (env : Env) (ledger : Ledger env) (d : Bytes)
    : List (Msg env) → State env → State env → Type 0 where
  done : {s : State env} → RunsFor env ledger d [] s s
  took :
      {m : Msg env} {ms : List (Msg env)} {s t u : State env} {r : Option Bytes}
      → handle env m s ≡ (ok r, t)
      → RunsFor env ledger d ms t u
      → RunsFor env ledger d (m ∷ ms) s u
  elsewhere :
      {ms : List (Msg env)} {s t u : State env}
      → t.store ≡ s.store
      → ledger.supply t.chain d ≡ ledger.supply s.chain d
      → RunsFor env ledger d ms t u
      → RunsFor env ledger d ms s u

module _ (env : Env) where
  -- What the messages of a run add to the supply of a denom, and what they take from it.
  abbrev pub all_minted : List (Msg env) → Bytes → ℕ
  all_minted [] d = 0
  all_minted (m ∷ ms) d = minted env m d + all_minted ms d

  abbrev pub all_burnt : List (Msg env) → Bytes → ℕ
  all_burnt [] d = 0
  all_burnt (m ∷ ms) d = burnt env m d + all_burnt ms d

module _ {env : Env} {ledger : Ledger env} {d : Bytes} where
  RunsFor-Runs :
      {ms : List (Msg env)} {s t : State env} → RunsFor env ledger d ms s t → Runs env ms s t
  RunsFor-Runs RunsFor.done = Runs.done
  RunsFor-Runs (RunsFor.took e r) = Runs.took e (RunsFor-Runs r)
  RunsFor-Runs (RunsFor.elsewhere e _ r) = Runs.elsewhere e (RunsFor-Runs r)

  RunsFor-balance :
      (laws : LedgerLaws env ledger) {ms : List (Msg env)} {s t : State env}
      → RunsFor env ledger d ms s t
      → ledger.supply t.chain d + all_burnt env ms d ≡ ledger.supply s.chain d + all_minted env ms d
  RunsFor-balance laws RunsFor.done = omega arith
  RunsFor-balance laws (RunsFor.took {m} {s} {t} e r) =
      omega (arith, handle-supply env ledger laws m s t e d, RunsFor-balance laws r)
  RunsFor-balance laws (RunsFor.elsewhere e same r) = omega (arith, same, RunsFor-balance laws r)

-- Along any run on which no other module makes or destroys coins of a denom, its supply is what it was
-- at first, and what the Mints of the run have added, less what its Burns have taken. Each of these
-- was sent by the account that the messages before it had left as the admin of the denom.
pub RunsFor-supply :
    {env : Env} {ledger : Ledger env} (stores : StoreLaws env) (addresses : AddressLaws env)
    (bank : BankLaws env) (denoms : DenomLaws env) (laws : LedgerLaws env ledger) {d : Bytes}
    {ms : List (Msg env)} {s t : State env}
    → RunsFor env ledger d ms s t
    → (ledger.supply t.chain d + all_burnt env ms d ≡ ledger.supply s.chain d + all_minted env ms d)
      × ArePermitted env ms (view env s)
RunsFor-supply stores addresses bank denoms laws run =
    (RunsFor-balance laws run, (Runs-Agrees stores addresses bank denoms (RunsFor-Runs run)).0)
