-- ===== src/Server.antt =====
-- What the HTTP server does beside calling the service.
pub mod Streams
pub mod Limiter
pub mod Cleanup
mod Tests
