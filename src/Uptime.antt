-- ===== src/Uptime.antt =====
-- The uptime of the services: packages/liquidity-monitor-backend/src/api-statistic.
pub mod Service
pub mod Bounds
mod Tests
