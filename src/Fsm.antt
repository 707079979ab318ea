-- ===== src/Fsm.antt =====
-- The conversation's state machine (orchestrator/src/surakshasetu/fsm).
pub mod States
pub mod Facts
pub mod Rows
pub mod Transition
pub mod Depth
pub mod Order
pub mod Safety
pub mod Handoff
pub mod Priority
pub mod Diagram
mod Tests
