-- ===== src/Cluster.antt =====
-- src/dv_spec/cluster and src/dv_spec/types/hex.py: the cluster files, their hashes and their checks.
pub mod Hex
pub mod HexRoundTrip
pub mod Definition
pub mod Lock
pub mod Hashing
pub mod Hashes
pub mod Walks
pub mod LockWalks
pub mod ConfigHash
pub mod Stored
pub mod Verification
pub mod Shares
pub mod Attested
