-- ===== src/CalendarSync/Evaluate.antt =====
-- packages/calendar-sync/src/evaluate.ts
pub mod NoSync
pub mod Validation
pub mod Transform
pub mod Decision
pub mod Stages
pub mod Soundness
pub mod Privacy
pub mod Convergence
pub mod Guards
pub mod Marker
pub mod Honesty
