-- ===== src/Scheduler.antt =====
-- backend/pkg/scheduler/scheduler.go: schedules with maintenance windows, and the tick that fires
-- them. Times are seconds since the epoch, in UTC; what the source compares below a second are
-- whole minutes, so nothing is lost.
mod Defs
pub mod Window
pub mod Next
pub mod Claim
pub mod Fire
pub mod Request
pub mod Accepted
mod Tests
unfoldable pub use Defs.*
