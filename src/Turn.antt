-- ===== src/Turn.antt =====
-- One customer turn (orchestrator/src/surakshasetu/graph): the session, the facts built from it,
-- the router and the decide node.
pub mod State
pub mod Facts
pub mod Router
pub mod Decide
pub mod Aside
pub mod Stack
mod Tests
