-- ===== src/Hosts.antt =====
-- backend/pkg/db/db.go on the tables hosts and ssh_keys, and the handlers of backend/cmd/api/main.go
-- that change them: reports, operator changes, keys and the offline sweep.
pub mod Defs
pub mod Keys
pub mod Spec
pub mod Refine
pub mod Offline
pub mod Atomic
pub mod Requests
pub mod Created
mod Tests
