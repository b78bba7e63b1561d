-- ===== src/Sockets.antt =====
-- WebSockets on both sides: packages/users-backend/src/ws-auth/ws-auth.service.ts on the server,
-- packages/common-frontend/src/tools/WebsocketClient.ts in the browser.
pub mod Clients
pub mod Sending
pub mod Unsettled
pub mod Lost
pub mod Reconnecting
pub mod Server
mod Rounds
pub mod Liveness
pub mod Browser
mod Flushing
mod Tidiness
pub mod Delivery
mod SendTests
mod Tests
