-- ===== src/State.antt =====
-- packages/state/src/index.ts: the claim ledger and its bitemporal projection.
pub mod CanonicalValue
pub mod Ledger
pub mod Projection
