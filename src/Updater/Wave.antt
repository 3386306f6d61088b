-- ===== src/Updater/Wave.antt =====
-- One wave of a bulk run: runWave under its weighted semaphore, as steps that the scheduler, the
-- context and the hosts choose.
mod Defs
pub mod Settle
pub mod Semaphore
pub mod Invariant
pub mod Append
unfoldable pub use Defs.*
