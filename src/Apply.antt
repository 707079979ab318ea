-- ===== src/Apply.antt =====
-- graph/states/s3.py, from the choice of a plan to the hand-off of its application.
pub mod State
pub mod Node
pub mod Matching
pub mod Posted
pub mod Acks
mod Tests
