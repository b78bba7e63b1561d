-- ===== src/Telegram.antt =====
-- Settings in the database and the messages that they allow: packages/users-backend/src/{settings,
-- telegraf}.
pub mod Settings
pub mod Reading
pub mod Events
mod Tests
