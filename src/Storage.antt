-- ===== src/Storage.antt =====
-- packages/storage/src/index.ts: the durable ledger and the idempotency store over a JSON file.
pub mod LocalLedger
pub mod Idempotency
