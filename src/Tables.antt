-- ===== src/Tables.antt =====
-- The search of a table: packages/common-frontend/src/components/Table/tableTools.ts.
pub mod Bulk
pub mod BulkSent
pub mod Columns
pub mod Editing
pub mod Fields
pub mod Filters
pub mod Query
pub mod Sets
pub mod Hidden
pub mod NewRows
pub mod Visibility
pub mod Queries
mod BulkTests
mod Tests
