-- ===== src/Types.antt =====
-- The package types: constants, keys, denoms, parameters, authority metadata, messages, genesis.
pub mod Keys
pub mod Denoms
pub mod Params
pub mod Authority
pub mod Messages
pub mod Genesis
pub mod Events
