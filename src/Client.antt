-- ===== src/Client.antt =====
-- client/cli: the commands by which a user sends the module's messages and makes its queries.
pub mod Cobra
pub mod Tx
pub mod Query
pub mod Laws
