-- ===== src/Server.antt =====
-- server/server.c: the HTTP server, without its sockets.
pub mod Json
pub mod Request
pub mod Handlers
pub mod Escaping
pub mod Fields
pub mod Counters
pub mod Tokens
mod Tests
