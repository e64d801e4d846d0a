-- ===== src/Codec/Laws.antt =====
-- What the codec promises: reading back, sizes, and an end on every input.
pub mod Varints
pub mod Decoding
pub mod Sizes
pub mod Marshal
pub mod MessagesTotal
pub mod Genesis
pub mod GenesisTotal
pub mod GenesisMarshal
pub mod Queries
pub mod RoundTrip
pub mod Total
pub mod Messages
