-- ===== src/Requests.antt =====
-- Requests that change something, and what runs them: idempotency keys and background jobs.
pub mod Idempotency
pub mod Execute
pub mod JobStore
pub mod Jobs
mod Tests
