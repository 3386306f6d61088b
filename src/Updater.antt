-- ===== src/Updater.antt =====
-- backend/pkg/updater/bulk.go: bulk runs over SSH.
-- What SSH, the remote host and the driver do is an argument: a `World` for each run, and a list of
-- moves for the interleaving of a wave.
pub mod Options
pub mod Command
pub mod Reboot
pub mod Host
pub mod Wave
pub mod Rollout
pub mod Start
pub mod Bulk
pub mod Requests
pub mod Overlap
pub mod Direct
mod Tests
