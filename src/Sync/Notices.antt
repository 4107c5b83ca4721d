-- ===== src/Sync/Notices.antt =====
-- server/src/sync/notices.ts: `NoticeService`.
pub mod Reads
pub mod Resolve
pub mod Decided
pub mod Restored
pub mod Searches
pub mod Held
pub mod Recoverable
