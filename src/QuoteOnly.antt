-- ===== src/QuoteOnly.antt =====
-- graph/states/quote_only.py: the indicative quote for a plan that the customer names.
pub mod State
pub mod Price
pub mod Node
pub mod Priced
pub mod Named
pub mod Withheld
mod Tests
