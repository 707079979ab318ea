-- ===== src/Handlers.antt =====
-- graph/handlers/ and jobs/timers.py: objections, the resume of a paused session, inactivity timers.
pub mod Timers
pub mod Objection
pub mod Pause
pub mod Resumed
pub mod Repeats
mod Tests
