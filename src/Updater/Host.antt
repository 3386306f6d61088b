-- ===== src/Updater/Host.antt =====
-- One host's run in a bulk run: runOne.
mod Defs
pub mod Outcome
unfoldable pub use Defs.*
