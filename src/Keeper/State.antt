-- ===== src/Keeper/State.antt =====
-- keeper/keeper.go: the state that the keeper's calls read and write, and the prefix stores.
pub mod Own
pub mod Supply
use tokenfactory.Base.{List, [], ◌∷◌, ◌++◌, Option, some, ◌≡◌}
use tokenfactory.Base.Bytes.{Bytes}
use tokenfactory.Base.Outcome.{Outcome}
use tokenfactory.Env.{Env, Effect}
use tokenfactory.Types.Events.{Event}
use tokenfactory.Types.Keys.{module_name}
use tokenfactory.Keeper.Exec.{Exec}

-- What an `sdk.Context` leads to: the module's store, the rest of the chain, the events so far.
pub record State (env : Env) : Type 0 where
  pub store : env.Store
  pub chain : env.Chain
  pub events : List Event

module _ (env : Env) where
  -- The bank has metadata for the denom.
  abbrev pub Known : State env → Bytes → Type 0
  Known s d = (m : env.Metadata) × (env.get_denom_metadata s.chain d ≡ some m)

  abbrev pub Action : Type 0 → Type 0
  Action A = Exec (State env) A

  -- A call of another keeper.
  abbrev pub call : {A : Type 0} → Effect env.Chain A → Action A
  call f s = let (r, c) = f s.chain in (r, record s { chain = c })

  -- prefix.NewStore(store, p).Get(k), Set(k, v) and Iterator(nil, nil)
  abbrev pub prefix_get : Bytes → Bytes → State env → Option Bytes
  prefix_get p k s = env.kv_get s.store (p ++ k)

  abbrev pub prefix_set : Bytes → Bytes → Bytes → State env → State env
  prefix_set p k v s = record s { store = env.kv_set (p ++ k) v s.store }

  abbrev pub prefix_iterate : Bytes → State env → List (Bytes × Bytes)
  prefix_iterate p s = env.kv_iterate p s.store

  -- EventManager().EmitEvents of one event
  abbrev pub emit : Event → State env → State env
  emit e s = record s { events = s.events ++ (e ∷ []) }

  -- CreateModuleAccount
  unfoldable pub create_module_account : Action (Unit {0})
  create_module_account = call (env.get_module_account module_name)
