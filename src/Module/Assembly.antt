-- ===== src/Module/Assembly.antt =====
-- module.go: NewAppModuleBasic and NewAppModule, what they register, and the callbacks that do nothing.
use tokenfactory.Base.{Option, none}
use tokenfactory.Base.Bytes.{Bytes}
use tokenfactory.Base.Outcome.{Outcome}
use tokenfactory.Env.{Env}
use tokenfactory.Types.Messages.{Msg}
use tokenfactory.Keeper.State.{State, Action}
use tokenfactory.Keeper.MsgServer.{handle}
use tokenfactory.Keeper.Make.{Wiring, Keeper}
use tokenfactory.Gateway.Runtime.{Runtime, QueryServer}
use tokenfactory.Gateway.Served.{keeper_server}
use tokenfactory.Module.Registration.{
  LegacyAmino, InterfaceRegistry, register_codec, register_interfaces,
}

-- AppModuleBasic, a struct without fields, and NewAppModuleBasic.
pub data AppModuleBasic : Type 0 where
  new_app_module_basic : AppModuleBasic

-- AppModuleBasic.RegisterLegacyAminoCodec
unfoldable pub register_legacy_amino_codec :
    (amino : LegacyAmino) → amino.Codec → Outcome amino.Codec
register_legacy_amino_codec amino cdc = register_codec amino cdc

-- AppModuleBasic.RegisterInterfaces
unfoldable pub module_register_interfaces :
    (lib : InterfaceRegistry) → lib.Registry → Outcome lib.Registry
module_register_interfaces lib reg = register_interfaces lib reg

module _ (env : Env) (w : Wiring) where
  pub record AppModule : Type 0 where
    pub basic : AppModuleBasic
    pub keeper : Keeper env w
    pub account_keeper : w.AccountKeeper
    pub bank_keeper : w.BankKeeper

  -- NewAppModule
  unfoldable pub new_app_module : Keeper env w → w.AccountKeeper → w.BankKeeper → AppModule
  new_app_module keeper account_keeper bank_keeper = record {
    basic = new_app_module_basic;
    keeper = keeper;
    account_keeper = account_keeper;
    bank_keeper = bank_keeper;
  }

module _ (env : Env) (rt : Runtime) where
  -- What a module.Configurator holds when RegisterServices is done.
  pub record Services : Type 0 where
    pub msg_server : Msg env → Action env (Option Bytes)
    pub query_server : QueryServer rt

  -- AppModule.RegisterServices: NewMsgServerImpl of the keeper, and the keeper itself for queries.
  unfoldable pub register_services : (rt.Context → State env) → Services
  register_services state_of = record {
    msg_server = handle env;
    query_server = keeper_server env rt state_of;
  }

-- AppModule.Route, the zero of sdk.Route.
abbrev pub module_route : {SdkRoute : Type 0} → SdkRoute → SdkRoute
module_route empty = empty

-- AppModule.LegacyQuerierHandler, which is nil.
abbrev pub legacy_querier_handler : {Querier : Type 0} → Option Querier
legacy_querier_handler = none

-- AppModuleBasic.RegisterRESTRoutes
abbrev pub register_rest_routes : {Router : Type 0} → Router → Router
register_rest_routes rtr = rtr

-- AppModule.RegisterInvariants
abbrev pub register_invariants : {Registry : Type 0} → Registry → Registry
register_invariants ir = ir
