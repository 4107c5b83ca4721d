-- ===== src/ConflictResponse.antt =====
-- server/src/conflict-response: `types.ts` and `engine.ts`
pub mod Records
pub mod Engine
pub mod Documents
pub mod Overlap
pub mod Candidates
mod Examples
