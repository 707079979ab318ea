-- ===== src/Needs.antt =====
-- graph/states/s2.py: the needs discovery of S2, from its prompts to the bound needs record.
pub mod Setup
pub mod Take
pub mod Prompt
pub mod Respond
pub mod Own
pub mod Node
pub mod Payload
mod Kept
pub mod Keeps
pub mod Turns
pub mod NodeKept
pub mod Current
pub mod Bound
pub mod Confirmed
pub mod Binds
mod Tests
