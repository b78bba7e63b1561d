-- ===== src/Descriptions.antt =====
-- The descriptions of an entity: packages/common-frontend/src/components/Descriptions.
pub mod Sections
pub mod Badges
pub mod Entity
pub mod InStep
mod Tests
