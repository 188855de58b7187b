-- ===== src/Qbft/Leader.antt =====
-- What the leader of a round proposes, and that the other nodes find it justified.
pub mod Choice
pub mod Counts
pub mod Accepted
