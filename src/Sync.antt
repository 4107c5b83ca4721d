-- ===== src/Sync.antt =====
-- server/src/sync: reconciliation of copies, and the outbox of provider writes.
pub mod Store
pub mod Provider
pub mod Effects
pub mod Reconcile
pub mod Verification
pub mod Notices
pub mod Samples
mod Examples
mod CopyExamples
