-- ===== src/Tokens.antt =====
-- backend/pkg/apitokens/apitokens.go and the handlers of backend/cmd/api/tokens.go: long-lived
-- tokens that an administrator makes for automation.
pub mod Defs
pub mod Access
mod Tests
