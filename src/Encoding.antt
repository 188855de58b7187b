-- ===== src/Encoding.antt =====
-- src/dv_spec/encoding: the deterministic protobuf encoding and the SSZ hash root.
pub mod Proto
pub mod Ssz
pub mod Walker
pub mod Fields
pub mod Closing
pub mod Puts
pub mod Decode
pub mod DecodeBack
pub mod Depth
pub mod Tree
