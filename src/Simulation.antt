-- ===== src/Simulation.antt =====
-- simulation/sim_msgs.go: random messages for the simulator.
pub mod Random
pub mod Accounts
pub mod Messages
pub mod Weights
pub mod Laws
pub mod Deliveries
pub mod Amounts
pub mod Handover
pub mod Drawn
pub mod Goes
