-- ===== src/CalendarSync.antt =====
-- packages/calendar-sync/src
pub mod Json
pub mod Types
pub mod DestinationEdits
pub mod Events
pub mod Platform
pub mod Hours
pub mod Evaluate
pub mod Samples
mod Examples
