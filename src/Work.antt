-- ===== src/Work.antt =====
-- packages/work/src/index.ts: governed units of work, their episodes, activities and assignments.
pub mod Records
pub mod Inputs
pub mod Registry
pub mod Changes
pub mod Applying
pub mod Methods
pub mod Handling
pub mod Reading
pub mod Advancing
pub mod Numbering
pub mod Histories
pub mod Staleness
pub mod HandBack
pub mod Tests
