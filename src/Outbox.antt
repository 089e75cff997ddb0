-- ===== src/Outbox.antt =====
-- The package of outbox/: the durable queue of a publisher, and what is proved of it.
pub mod Records
pub mod Lanes
pub mod Store
pub mod Batches
pub mod Entries
pub mod Completions
pub mod Accounts
pub mod Acceptance
pub mod Changes
pub mod Deletions
pub mod Removals
pub mod Runs
pub mod Selection
