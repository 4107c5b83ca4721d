-- ===== src/Planning.antt =====
-- server/src/planning: the planning of protected time and of recurring meetings.
pub mod Types
pub mod Slots
pub mod Boundary
pub mod Engine
pub mod Choice
pub mod Openings
pub mod Best
pub mod Schedule
pub mod Protection
mod Examples
