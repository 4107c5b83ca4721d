-- ===== src/Policy.antt =====
-- server/src/policy/service.ts: the requests of a user on a policy that runs.
pub mod Requests
pub mod Evidence
pub mod Recovery
pub mod Current
pub mod Safety
pub mod Retried
pub mod Blocked
pub mod Examples
pub mod PauseExamples
pub mod Calendars
pub mod Pausing
pub mod Deferred
pub mod Resumed
pub mod Permitted
