-- ===== src/Cards.antt =====
-- The list of cards that can be edited: packages/common-frontend/src/components/List.
pub mod Requests
pub mod Editing
pub mod Remembered
pub mod AsTable
mod Tests
