-- ===== src/Policies.antt =====
-- Who may do what: packages/users-backend/src/casl and the guard of the users' controller,
-- packages/users-backend/src/users/users-editing.guard.ts.
pub mod Ability
pub mod Switches
pub mod Shown
pub mod Guard
pub mod Grants
pub mod Editing
pub mod Fields
mod Tests
