-- ===== src/Qbft/Decision.antt =====
-- What holds once an instance has decided (`q_commit` is not empty).
pub mod Final
pub mod Resends
