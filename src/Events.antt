-- ===== src/Events.antt =====
-- backend/pkg/events: the broker that fans database notifications out to subscribers, and the
-- listener that keeps its connection to the database.
pub mod Defs
pub mod Delivery
pub mod Listening
mod Tests
