-- ===== src/Auth.antt =====
-- Sessions of the users backend: packages/users-backend/src/{auth, jwt-auth, revoked-tokens}.
pub mod Payload
pub mod Revoked
pub mod Runtime
pub mod Accounts
pub mod Admission
pub mod Service
pub mod Cookies
pub mod Cleared
pub mod Strategies
pub mod History
pub mod Rows
pub mod Rotation
pub mod Ending
pub mod Issuing
pub mod Race
mod Tests
