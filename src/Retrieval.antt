-- ===== src/Retrieval.antt =====
-- retrieval/: which collections a question searches.
pub mod Routing
pub mod Gate
pub mod Select
pub mod Quotas
mod Tests
