-- ===== src/Crypto.antt =====
-- crypto/: the envelope format and the per-subject keys.
pub mod Envelope
pub mod Keys
pub mod Shredding
pub mod Due
mod Tests
