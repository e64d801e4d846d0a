-- ===== src/Examples.antt =====
-- The theorems at concrete inputs: a chain in memory, and a run on it.
mod Store
mod Chain
mod Denoms
mod Encodings
mod Vault
mod Coins
mod Scenario
mod Run
mod Arrival
mod Import
mod Progress
mod Tools
mod Outside
mod Draws
mod Mux
