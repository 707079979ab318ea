-- ===== src/Erasure.antt =====
-- graph/handlers/data_erasure.py: the erasure of a session, and the sweep.
pub mod Session
pub mod Sweep
pub mod Left
pub mod KeysKept
pub mod Pending
pub mod Settled
mod Tests
