-- ===== src/Strategy.antt =====
-- internal/strategy: the harness of the registered rules, their rankers and the market filter.
pub mod Filter
pub mod Rankers
mod Tests
mod Splits
pub mod Ties
pub mod Selector
pub mod Decide
pub mod Held
pub mod Trades
pub mod Decisions
pub mod Sight
pub mod Reasons
pub mod Fences
