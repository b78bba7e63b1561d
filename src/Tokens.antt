-- ===== src/Tokens.antt =====
-- Bearer tokens: packages/users-backend/src/tokens, and the guard of
-- packages/users-backend/src/jwt-auth/jwt-auth.guard.ts that hands them to their own mechanism.
pub mod Credentials
pub mod Guard
pub mod Service
pub mod Issued
mod Tests
