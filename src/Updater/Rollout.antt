-- ===== src/Updater/Rollout.antt =====
-- Coordinator.run: the canary wave, the threshold, the pause and the remaining hosts.
mod Defs
pub mod Settle
pub mod Return
unfoldable pub use Defs.*
