-- ===== src/Statistics.antt =====
-- Counters that are flushed to the database, and the choice of an interval for a timeline:
-- packages/liquidity-monitor-backend/src/{quotes-statistic, users-connections-statistic} and
-- packages/users-backend/src/event-logs/event-logs.service.ts.
pub mod Quotes
pub mod Interval
pub mod QuotesTotals
pub mod Connections
pub mod ConnectionsTotals
mod Tests
