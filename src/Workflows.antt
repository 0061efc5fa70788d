-- ===== src/Workflows.antt =====
-- core/novaadapt_core/workflows: the store of workflow records, the store of checkpoints, and the
-- engine that drives both.
pub mod Store
pub mod Checkpoints
pub mod Engine
mod Tests
