-- ===== src/Float.antt =====
-- Go's float64, which this library does not implement: the operations are an instance argument of
-- every definition that computes with prices. `Float.Fixed` is an instance that runs.
mod Defs
pub mod Fixed
pub use Defs.*
