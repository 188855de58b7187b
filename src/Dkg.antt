-- ===== src/Dkg.antt =====
-- src/dv_spec/subspecs/dkg: the parts of the distributed key generation that are modelled.
pub mod NodeSigs
pub mod Protocols
pub mod Thresholds
pub mod ShareIndices
pub mod Removal
pub mod Frost
pub mod FrostChecks
pub mod CastOrder
pub mod Assembly
pub mod Pedersen
pub mod Sync
