-- ===== src/Module.antt =====
-- module.go: what the module hands to the application, and types/codec.go.
pub mod Registration
pub mod App
pub mod Assembly
pub mod Basic
pub mod Laws
