-- ===== src/Sync/Reconcile.antt =====
-- server/src/sync/reconciliation.ts: the reconciliation of copies.
pub mod Reasons
pub mod Projecting
pub mod Observe
pub mod Intents
pub mod Updating
pub mod Recording
pub mod Authority
pub mod Drafts
pub mod Passes
pub mod Run
pub mod Termination
pub mod Outcome
