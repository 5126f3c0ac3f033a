-- ===== src/Risk.antt =====
-- internal/risk: the rules between a strategy's intents and the orders.
pub mod Rule
pub mod Model
pub mod Floor
pub mod Gate
pub mod Verdicts
pub mod Capacity
pub mod Search
mod Tests
