-- ===== src/Webhooks.antt =====
-- backend/pkg/webhook (the addresses that may be called, one delivery and its retries), the table
-- webhooks of backend/pkg/db/db.go and dispatchWebhooks of backend/cmd/api/main.go.
pub mod Defs
pub mod Retries
pub mod Safety
mod Tests
