-- ===== src/Accounts.antt =====
-- backend/pkg/users/users.go, backend/pkg/session/session.go and the gates of
-- backend/pkg/middleware: who may log in, how long a session lives, and what a role opens.
-- bcrypt and SHA-256 are outside: a function that compares, and a function that hashes.
pub mod Users
pub mod Lockout
pub mod Roles
pub mod Sessions
pub mod Lifetime
pub mod Revocation
pub mod Gates
pub mod Passage
pub mod Entry
pub mod Acceptance
pub mod Admission
pub mod Enrolment
pub mod Manage
mod Tests
