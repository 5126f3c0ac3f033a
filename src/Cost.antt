-- ===== src/Cost.antt =====
-- internal/cost: what an equity trade costs, line by line.
pub mod Product
pub mod Side
pub mod Component
pub mod Broker
pub mod Basis
pub mod Model
pub mod Schedule
pub mod Selection
pub mod Statutory
pub mod Trade
pub mod Coverage
pub mod Unverified
pub mod Depository
pub mod Day
mod Tests
