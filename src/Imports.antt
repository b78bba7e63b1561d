-- ===== src/Imports.antt =====
-- Changes that are imported from a file: packages/common-frontend/src/components/ChangesModal.
pub mod Modal
pub mod Order
pub mod Origin
pub mod Reachable
pub mod Conflicts
pub mod Diff
pub mod Sent
pub mod Resolved
mod Tests
