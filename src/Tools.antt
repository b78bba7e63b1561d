-- ===== src/Tools.antt =====
-- The tools for TypeORM of the backend: packages/common-backend/src/tools.
pub mod VirtualColumns
pub mod Shared
pub mod Hydrated
pub mod Exceptions
mod Tests
