-- ===== src/Effects.antt =====
-- packages/effects/src/index.ts: governed execution, from the intent to the verified commit.
pub mod Records
pub mod Manifests
pub mod Engines
pub mod Execution
pub mod Tests
