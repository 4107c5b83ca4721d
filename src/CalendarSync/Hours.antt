-- ===== src/CalendarSync/Hours.antt =====
-- packages/calendar-sync/src/hours.ts
pub mod Intervals
pub mod Evaluation
pub mod Subtraction
pub mod Concrete
pub mod Matching
pub mod Range
