-- ===== src/Updater/Reboot.antt =====
-- rebootAndWait: issue a reboot over SSH and wait for evidence that the host came back.
mod Defs
pub mod Evidence
unfoldable pub use Defs.*
