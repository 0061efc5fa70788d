-- ===== src/Models.antt =====
-- The language models, and which of them answers a request.
pub mod Router
mod Tests
