-- ===== src/Screening.antt =====
-- graph/states/s1.py: the screening dialogue that S1, Quote-Only and S2 share.
pub mod State
pub mod Take
pub mod Prompt
pub mod Respond
pub mod Kept
pub mod Keeps
pub mod Written
pub mod Ready
pub mod Evaluate
pub mod Corrected
mod Tests
