-- ===== src/Codec.antt =====
-- The wire format: what protoc generated into types/authorityMetadata.pb.go.
pub mod Varint
pub mod Skip
pub mod Authority
pub mod Wire
pub mod Fields
pub mod Messages
pub mod Any
pub mod Genesis
pub mod Queries
pub mod Laws
