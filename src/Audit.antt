-- ===== src/Audit.antt =====
-- The audit ledger (orchestrator/src/surakshasetu/audit).
pub mod Chain
pub mod Linked
pub mod Append
pub mod Tamper
pub mod Merkle
pub mod Anchor
pub mod Anchored
mod Tests
