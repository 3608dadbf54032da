-- ===== src/Identity.antt =====
-- packages/identity/src/index.ts: identity operations and the registry that replays them.
pub mod Operations
pub mod Registry
pub mod Tests
