-- ===== src/Plans.antt =====
-- Plans that an operator approves or rejects, and the log of the actions that were taken.
pub mod PlanStore
pub mod UndoQueue
pub mod Policy
mod Tests
