-- ===== src/Qbft.antt =====
-- src/dv_spec/subspecs/consensus/qbft: one QBFT consensus instance.
pub mod Definition
pub mod Message
pub mod Transport
pub mod State
pub mod Justify
pub mod Classify
pub mod Handle
pub mod Quorum
pub mod Decision
pub mod Prepares
pub mod Justified
pub mod Round
pub mod Rules
pub mod Invariant
pub mod Leader
pub mod Sent
