-- ===== src/AuditLogs.antt =====
-- The trail of changes: packages/users-backend/src/audit-logs.
pub mod Service
pub mod Replay
mod Tests
