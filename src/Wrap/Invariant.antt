-- ===== src/Wrap/Invariant.antt =====
-- What holds between any two steps of the goroutines that share a connection.
mod Defs
mod Counts
mod Kept
mod Facts
mod Own
mod Phase
pub mod Step
pub use Defs.*
