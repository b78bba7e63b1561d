-- ===== src/EventLogs.antt =====
-- The log of requests: packages/users-backend/src/event-logs.
pub mod Requests
pub mod Store
pub mod Saved
pub mod Once
mod Tests
