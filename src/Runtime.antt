-- ===== src/Runtime.antt =====
-- What the service keeps beside its databases.
pub mod Governance
pub mod AuditStore
mod Tests
