-- ===== src/Keeper/Make.antt =====
-- keeper/keeper.go: NewKeeper and SetContractKeeper, which wire the keeper to the others.
use tokenfactory.Base.{List, Bool, if◌then◌else◌, Option, none, some}
use tokenfactory.Env.{Env, ParamPair}
use tokenfactory.Types.Params.{param_key_table}

-- The references that a keeper holds, and what NewKeeper asks of the parameter subspace.
pub record Wiring : Type 1 where
  pub StoreKey : Type 0
  pub Subspace : Type 0
  pub AccountKeeper : Type 0
  pub BankKeeper : Type 0
  pub ContractKeeper : Type 0
  pub DistrKeeper : Type 0
  pub has_key_table : Subspace → Bool
  pub with_key_table : List ParamPair → Subspace → Subspace

module _ (env : Env) (w : Wiring) where
  -- Keeper. The contract keeper is nil until it is set.
  pub record Keeper : Type 0 where
    pub store_key : w.StoreKey
    pub param_space : w.Subspace
    pub account_keeper : w.AccountKeeper
    pub bank_keeper : w.BankKeeper
    pub contract_keeper : Option w.ContractKeeper
    pub distr_keeper : w.DistrKeeper

  -- NewKeeper
  unfoldable pub new_keeper :
      w.StoreKey → w.Subspace → w.AccountKeeper → w.BankKeeper → w.DistrKeeper → Keeper
  new_keeper store_key param_space account_keeper bank_keeper distr_keeper = record {
    store_key = store_key;
    param_space =
        if w.has_key_table param_space
        then param_space
        else w.with_key_table (param_key_table env) param_space;
    account_keeper = account_keeper;
    bank_keeper = bank_keeper;
    contract_keeper = none;
    distr_keeper = distr_keeper;
  }

  -- Keeper.SetContractKeeper
  unfoldable pub set_contract_keeper : w.ContractKeeper → Keeper → Keeper
  set_contract_keeper contract_keeper k = record k { contract_keeper = some contract_keeper }
