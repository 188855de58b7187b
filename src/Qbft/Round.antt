-- ===== src/Qbft/Round.antt =====
-- How an instance changes its round.
pub mod Future
pub mod Repeated
pub mod Sent
