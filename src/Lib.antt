-- ===== src/Lib.antt =====
-- Woyengi keeps canonical records of what was observed and claimed, and derives everything else from
-- them: who is who (identity), what may be done by whom (permissions), what holds at an instant
-- (state), which evidence and which authority stand behind it, what an execution did and whether it
-- may be accepted (effects), who works on what (work) and belongs where (workspace), and how replicas
-- and files agree (sync, storage). This library models those packages and proves what they promise.
--
-- Parts and files. The path of the code is from the root of the repository.
--   Base        helpers that every package repeats (required text, prefixes, instants), strings,
--               thrown errors, maps and sets, the stable sort, numbers
--   Core        packages/core/src/index.ts: record types, and the constructors that validate them
--   Identity    packages/identity/src/index.ts: operations; `Registry` is `IdentityRegistry`
--   Permissions packages/permissions/src/index.ts: `Capability`, `Engine` is `CapabilityEngine`
--   State       packages/state/src/index.ts: `Ledger` is `ClaimLedger`, `Projection` its `projectAt`
--   Ledger      packages/ledger/src/index.ts: `InMemoryCanonicalLedger`
--   Storage     packages/storage/src/index.ts: `LocalCanonicalLedger`, `LocalIdempotencyStore`
--   Evidence    packages/evidence/src/index.ts: `EvidenceEngine`
--   Authority   packages/authority/src/index.ts: `AuthorityEngine`
--   Effects     packages/effects/src/index.ts: `Manifests` validates, `Execution` has the methods of
--               `GovernedExecutionEngine`, those that record in `Recording` and `decide` in `Decision`
--   Work        packages/work/src/index.ts: `Registry`, `Changes` and `Applying` are `#apply` of
--               `WorkRegistry`; `Methods`, `Handling` and `Reading` are its methods
--   Workspaces  packages/workspace/src/index.ts: `Registry` and `Applying` are `#apply` of
--               `WorkspaceRegistry`; `Methods` and `Access` are its methods
--   Sync        packages/sync/src/index.ts: `SyncEngine`
--   Samples     a host and records for the tests; each component has its tests in a module Tests
-- Functions have the names of the code in snake case. The packages meet in the record types of Core:
-- the claim ledger keeps claims and transitions, the durable ledger stores any record, and evidence,
-- authority and synchronisation read them.
--
-- How it is modelled. An engine is a record of its maps; a method that changes it returns the new
-- engine or raises the error that the code throws, with its class and message; the engine is then as
-- it was, which the code ensures by checking first (the one test that comes after a change, of an
-- assignment whose activity is not there, is taken to come before it). The governed execution engine
-- does not: its methods are programs (`Base.Programs`) that return the engine they leave beside the
-- result. A `Map` is the list of its entries in insertion order, a `Set` the list of its members.
-- Text is the list of UTF-16 units. A finite double is the integer of its units of 2 ^ -1074, of
-- which comparisons are taken and sums, rounded to a double; the infinities are left out, and with
-- them the tests of `Number.isFinite`, and NaN is left out but for the confidence of a claim and of
-- a candidate (`Double`). Sequence numbers and depths are naturals, checked against the largest safe integer where
-- the code checks them; one more than a number of the durable ledger is `next_sequence`, which rounds
-- back at 2 ^ 53 as the sum of doubles does. The host is an argument (`Host`):
-- collation, lower case, `toISOString` and the printing of numbers; the theorems that need it assume
-- that the collation is a consistent comparator (`IsConsistent`), as ECMA-402 wants of it. Freezing
-- and cloning leave no trace in a value. What a write of a file did is an argument of the operations
-- that write.
--
-- Fuel. `canonical` follows merges with fuel one more than the number of merges: the walk visits each
-- entity at most once before it ends or repeats one, so the fuel is enough, and the code's own test
-- for a cycle comes first. The binary length of a number, which rounding takes, is found with the
-- number itself as fuel, since each round halves it. Every other loop is a structural recursion.
--
-- Not modelled: the object store of packages/storage (file access around a hash), the constructors of
-- the other record kinds of packages/core, the remaining packages, and the services and applications,
-- which wire the packages to HTTP, files and processes.
pub mod Base
pub mod Core
pub mod Samples
pub mod Identity
pub mod Permissions
pub mod State
pub mod Ledger
pub mod Storage
pub mod Evidence
pub mod Authority
pub mod Sync
pub mod Effects
pub mod Work
pub mod Workspaces
