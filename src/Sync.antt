-- ===== src/Sync.antt =====
-- backend/app/sync: one effect per operation id, and the change feed.
pub mod Idempotency
pub mod Sorting
pub mod Changes
