-- ===== src/Runs/Invariant.antt =====
-- What holds of the index and of the Evidence between two operations.
mod Links
pub mod Committing
pub mod Keeping
pub use Links.*
