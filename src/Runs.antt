-- ===== src/Runs.antt =====
-- backend/pkg/db/runs.go and backend/pkg/models/update_run.go: the rows of the table update_runs,
-- and one function for each statement of the source.
-- A statement takes a `fault`: what the driver reports when the statement does not reach the table.
-- Times are numbers of one unit.
mod Defs
pub mod Laws
pub mod Create
pub mod Output
mod Tests
unfoldable pub use Defs.*
