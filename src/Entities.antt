-- ===== src/Entities.antt =====
-- internal/market/entities: which ISINs are one company, as the reviewed roster says it.
pub mod Isin
pub mod CheckDigits
pub mod Link
pub mod Lines
pub mod Graph
pub mod Claims
pub mod Trails
pub mod Walks
pub mod Paths
pub mod Candidate
pub mod Gating
pub mod Counting
pub mod Admission
pub mod Proposing
pub mod Generated
pub mod Proposed
pub mod Rosters
pub mod Adoption
pub mod Plan
pub mod Apply
pub mod Retract
pub mod Written
pub mod Ids
pub mod Roots
pub mod Planned
pub mod Flatness
pub mod Repeats
pub mod Applied
pub mod Again
pub mod Ends
pub mod Dissolved
pub mod Canonical
pub mod Quoted
pub mod Samples
mod Tests
mod Stores
