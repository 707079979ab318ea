-- ===== src/Release.antt =====
-- rails/output.py: what may be released of a model's text.
pub mod Context
pub mod Grounding
pub mod Checks
pub mod Policy
pub mod Origin
pub mod Released
pub mod Disclosed
mod Tests
