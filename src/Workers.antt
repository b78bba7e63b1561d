-- ===== src/Workers.antt =====
-- The worker processes of a cluster: packages/common-backend/src/modules/cluster/cluster.service.ts.
pub mod Config
pub mod Cluster
pub mod Clusters
pub mod Starting
pub mod Names
pub mod Steps
pub mod Stopping
mod Tests
