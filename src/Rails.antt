-- ===== src/Rails.antt =====
-- rails/: the redaction of personal data, and the checksums that its recognisers use.
pub mod Verhoeff
pub mod Errors
pub mod Redact
pub mod Hidden
mod Tests
