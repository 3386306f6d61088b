-- ===== src/Playbooks.antt =====
-- backend/pkg/playbooks/playbooks.go and cleanSteps of backend/cmd/api/playbooks.go: the shell steps
-- of a playbook, and the table of the playbooks.
mod Defs
pub mod Store
pub mod Shell
pub mod Clean
pub mod Requests
mod Tests
unfoldable pub use Defs.*
