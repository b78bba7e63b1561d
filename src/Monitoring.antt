-- ===== src/Monitoring.antt =====
-- packages/liquidity-monitor-backend/src/provider-monitoring/provider-monitoring.service.ts: which
-- providers send no quotes, what is stored of it, and who is told when.
pub mod Notify
pub mod Backoff
pub mod Outage
pub mod Periods
pub mod Opening
mod Tests
