-- ===== src/Tests.antt =====
-- Runs of the models at concrete inputs, and the theorems at inputs that meet their hypotheses.
mod Cluster
mod Files
mod Wire
mod Ceremony
mod Agreed
mod Qbft
mod Timer
mod Sigagg
mod Sent
mod Priority
mod Exchange
