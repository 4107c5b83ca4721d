-- ===== src/Sync/Verification.antt =====
-- server/src/sync/verification.ts: the verification of copies at their destination.
pub mod Decision
pub mod Guards
pub mod Repair
pub mod Claim
pub mod Batch
pub mod Claiming
pub mod Evidence
pub mod Coherence
pub mod Counts
pub mod Owned
