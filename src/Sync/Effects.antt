-- ===== src/Sync/Effects.antt =====
-- server/src/sync/effects.ts: the effect executor.
pub mod Steps
pub mod Missing
pub mod Attempt
pub mod Lease
pub mod Rows
pub mod Execute
pub mod Order
pub mod Remote
pub mod Foreign
pub mod Settling
pub mod SettledWrites
pub mod Settled
