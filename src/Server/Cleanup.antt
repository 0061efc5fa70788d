-- ===== src/Server/Cleanup.antt =====
-- `prune_local_state` of core/novaadapt_core/cleanup.py, on the five databases. The readings of the clocks
-- are arguments, one for each store; the times to keep are in seconds.
use nova_adapt.Base.{ℕ, ◌+◌, ◌*◌, second}
use nova_adapt.Plans.UndoQueue
use nova_adapt.Plans.UndoQueue.{UndoQueue}
use nova_adapt.Plans.PlanStore
use nova_adapt.Plans.PlanStore.{Plans}
use nova_adapt.Requests.JobStore
use nova_adapt.Requests.JobStore.{Rows}
use nova_adapt.Requests.Idempotency
use nova_adapt.Requests.Idempotency.{IdempotencyStore}
use nova_adapt.Runtime.AuditStore
use nova_adapt.Runtime.AuditStore.{AuditStore}

pub record Databases : Type 0 where
  pub actions : UndoQueue
  pub plans : Plans
  pub jobs : Rows
  pub idempotency : IdempotencyStore
  pub audit : AuditStore

pub record Retentions : Type 0 where
  pub actions : ℕ
  pub plans : ℕ
  pub jobs : ℕ
  pub idempotency : ℕ
  pub audit : ℕ

pub record Clocks : Type 0 where
  pub actions : ℕ
  pub plans : ℕ
  pub jobs : ℕ
  pub idempotency : Idempotency.Clock
  pub audit : AuditStore.Clock

pub record Removed : Type 0 where
  pub total : ℕ
  pub actions : ℕ
  pub plans : ℕ
  pub jobs : ℕ
  pub idempotency : ℕ
  pub audit : ℕ

-- `prune_local_state`
unfoldable pub prune_local_state : Clocks → Retentions → Databases → Removed × Databases
prune_local_state c keep d =
    let (actions, d1) = UndoQueue.prune_older_than c.actions keep.actions d.actions in
    let (plans, d2) = PlanStore.prune_older_than c.plans keep.plans d.plans in
    let (jobs, d3) = JobStore.prune_older_than c.jobs keep.jobs d.jobs in
    let opened = record d.idempotency {
      retention = keep.idempotency * second;
      cleanup_interval = 0;
      last_cleanup = 0;
    } in
    let (entries, d4) = Idempotency.prune_expired c.idempotency opened in
    let log = record d.audit {
      retention = keep.audit * second;
      cleanup_interval = 0;
      last_cleanup = 0;
    } in
    let (events, d5) = AuditStore.prune_expired c.audit log in
    (
      record {
        total = actions + plans + jobs + entries + events;
        actions = actions;
        plans = plans;
        jobs = jobs;
        idempotency = entries;
        audit = events;
      },
      record { actions = d1; plans = d2; jobs = d3; idempotency = d4; audit = d5 },
    )
