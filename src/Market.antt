-- ===== src/Market.antt =====
-- internal/market: the share actions, the return fence and the sets of returns.
pub mod Actions
pub mod Detection
pub mod Windows
pub mod Fence
pub mod Sources
pub mod Returns
mod Tests
pub mod Samples
pub mod Texts
pub mod Volatility
pub mod Closes
pub mod Covered
pub mod Unbroken
pub mod Seen
pub mod Accounts
pub mod Fenced
