-- ===== src/Qbft/Invariant.antt =====
-- qbft/protocol.py: the invariant of an instance. What it has decided is carried by a quorum of
-- COMMITs of its round, and what it has prepared by a quorum of PREPAREs.
mod Fields
mod Fire
mod Messages
pub use Fields.*
pub use Fire.*
pub use Messages.*
