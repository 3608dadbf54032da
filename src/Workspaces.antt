-- ===== src/Workspaces.antt =====
-- packages/workspace/src/index.ts: principals, accounts, organizations and their memberships.
pub mod Records
pub mod Registry
pub mod Applying
pub mod Methods
pub mod Access
pub mod Entering
pub mod Singling
pub mod Rebuilding
pub mod Replaying
pub mod Tests
