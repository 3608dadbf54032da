-- ===== src/Permissions.antt =====
-- packages/permissions/src/index.ts: capabilities, their delegation, revocation and evaluation.
pub mod Capability
pub mod Engine
pub mod Tests
