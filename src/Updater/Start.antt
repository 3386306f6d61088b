-- ===== src/Updater/Start.antt =====
-- Coordinator.Start: from the request to the goroutine of the bulk run.
mod Defs
pub mod Rows
pub mod Effects
unfoldable pub use Defs.*
