-- ===== src/Engine.antt =====
-- internal/engine: the book and what moves it.
pub mod Model
pub mod Portfolio
pub mod Broker
pub mod Fills
pub mod Close
pub mod Marks
pub mod Seams
pub mod StoreMarket
pub mod Steps
pub mod Run
pub mod Settlement
pub mod Pace
pub mod Clearing
pub mod Discipline
pub mod PaperBroker
pub mod Shortfall
pub mod Funding
pub mod Kept
pub mod Actions
pub mod Purchases
pub mod Sales
pub mod Holdings
mod Tests
mod Runs
mod Sessions
