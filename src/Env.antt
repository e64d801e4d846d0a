-- ===== src/Env.antt =====
-- The code that the module calls and that is not part of the repository: the SDK's key-value store,
-- its address, denom and coin functions, and the bank, account, distribution and gas keepers behind
-- types/expected_keepers.go. All of it is the parameter `Env`.
mod Kinds
mod Laws
pub mod Ledger
pub use Kinds.*
pub use Laws.*
