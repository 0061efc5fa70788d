-- ===== src/Service.antt =====
-- `NovaAdaptService` of core/novaadapt_core/service.py: how a plan is approved, executed, repaired,
-- rejected and undone, and where an action is sent.
pub mod Routing
pub mod Actions
pub mod Admit
pub mod Approve
pub mod Domains
pub mod Repair
pub mod Undo
pub mod Closed
pub mod Permitted
pub mod Lifecycle
pub mod Retries
pub mod Picks
pub mod Targets
pub mod Normalized
pub mod Sends
pub mod Create
pub mod Tests
