-- ===== src/Limits.antt =====
-- backend/pkg/middleware/ratelimit.go: the token bucket of the login and enrolment endpoints, the
-- address list and the address of a client.
pub mod Defs
pub mod Bound
pub mod Address
mod Tests
