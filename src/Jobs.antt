-- ===== src/Jobs.antt =====
-- server/src/jobs and the error codes of server/src/foundation.ts
pub mod ErrorCode
pub mod Queue
pub mod LeasedJob
pub mod Table
pub mod Leasing
pub mod Updates
pub mod Calls
pub mod Ownership
mod Examples
