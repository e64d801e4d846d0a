-- ===== src/Keeper.antt =====
-- The package keeper.
pub mod Exec
pub mod State
pub mod Make
pub mod Params
pub mod Admins
pub mod Creators
pub mod BankActions
pub mod CreateDenom
pub mod MsgServer
pub mod Registry
pub mod Query
pub mod Genesis
pub mod Export
pub mod Invariant
