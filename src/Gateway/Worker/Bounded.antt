-- ===== src/Gateway/Worker/Bounded.antt =====
-- The worker and the callers of `enqueue`, in any order: how often a job runs.
use nova_adapt.Base.{
  ℕ, ◌-◌, ◌≤◌, String, ◌≡◌, sym, ap, true, Option, none, some, List, [], ◌∷◌, ◌++◌, arith,
  string_eq, All-append, max, Option-cases, inl, inr, is_some, subst, count,
}
use nova_adapt.Base.Text.{or_else}
use nova_adapt.Base.Json.{Fields}
use nova_adapt.Base.Exec.{Result, ok, raised, integrity_error}
use nova_adapt.Base.Table
use nova_adapt.Base.Table.Keys.{Keyed-append}
use nova_adapt.Gateway.Queue.{JobRecord, Queue, job_key, select_job, enqueue, queued_job}
use nova_adapt.Gateway.Queue.Budget.{InBudget, left}
use nova_adapt.Gateway.Worker.{WorkerConfig, WorkerOutcome, process_once}
use nova_adapt.Gateway.Worker.Retries.{Inv, is_for, process_once-Turn}

-- A turn of the worker, or a call of `enqueue`.
pub data Event : Type 0 where
  work : (now later : ℕ) → Event
  submit :
      (now : ℕ) (fresh : String) (payload : Fields) (job_id workspace_id profile_name : String)
      (reply_to : Option Fields) (parent_job_id : String)
      → Event

-- The outcomes of the worker's turns, and the queue that is left.
pub play : WorkerConfig → List Event → Queue → List WorkerOutcome × Queue
play c [] q = ([], q)
play c (work now later ∷ events) q =
    let (o, q1) = process_once c now later q in let (os, q2) = play c events q1 in (o ∷ os, q2)
play c (submit now fresh payload id workspace profile reply parent ∷ events) q =
    play c events (enqueue now fresh payload id workspace profile reply parent q).1

module _ (limit now : ℕ) (fresh : String) (payload : Fields) (id workspace profile : String)
    (reply : Option Fields) (parent : String) (q : Queue) where
  abbrev row : JobRecord
  row = queued_job now payload (or_else id fresh) workspace profile reply parent

  abbrev after : Queue
  after = (enqueue now fresh payload id workspace profile reply parent q).1

  enqueue-taken :
      (old : JobRecord)
      → select_job (or_else id fresh) q ≡ some old
      → enqueue now fresh payload id workspace profile reply parent q ≡ (raised integrity_error, q)
  unfolding enqueue
  enqueue-taken old h = ground (arith, Table.insert-taken job_key row old q.jobs h)

  enqueue-fresh :
      select_job (or_else id fresh) q ≡ none
      → enqueue now fresh payload id workspace profile reply parent q
        ≡ (ok (or_else id fresh), record q { jobs = q.jobs ++ row ∷ [] })
  unfolding enqueue
  enqueue-fresh h = ground (arith, Table.insert-fresh job_key row q.jobs h)

  enqueue-stored :
      (j : String) → is_some (select_job j q) ≡ true → select_job j after ≡ select_job j q
  enqueue-stored j h = elim (Option-cases (select_job (or_else id fresh) q)) [
    | inl free ↦ ground (arith, enqueue-fresh free, Table.select-append job_key j q.jobs row)
    | inr (old, taken) ↦ ground (arith, enqueue-taken old taken)
  ]

  abbrev leaves :
      {x : Result String × Queue}
      → enqueue now fresh payload id workspace profile reply parent q ≡ x
      → Inv limit x.1
      → Inv limit after
  leaves e v = subst (Inv limit) (sym (ap (λ (x : Result String × Queue). x.1) e)) v

  enqueue-Inv : Inv limit q → Inv limit after
  enqueue-Inv v = elim (Option-cases (select_job (or_else id fresh) q)) [
    | inl free ↦ leaves (enqueue-fresh free) (record {
      keyed = Keyed-append job_key q.jobs row free v.keyed;
      budget = All-append (InBudget limit) q.jobs (row ∷ []) v.budget ((λ h. ground arith), tt);
    })
    | inr (old, taken) ↦ leaves (enqueue-taken old taken) v
  ]

runs-le-left :
    (c : WorkerConfig) (j : String) (events : List Event) (q : Queue)
    → Inv c.max_attempts q
    → is_some (select_job j q) ≡ true
    → count (is_for j) (play c events q).0 ≤ left c.max_attempts j q
unfolding play
runs-le-left c j [] q v h = omega arith
runs-le-left c j (work now later ∷ events) q v h =
    let turn = process_once-Turn c now later j q v in
    let q1 = (process_once c now later q).1 in
    ground (arith, turn.spent, runs-le-left c j events q1 turn.inv (turn.stays h))
runs-le-left c j (submit now fresh payload id workspace profile reply parent ∷ events) q v h =
    let same =
      enqueue-stored c.max_attempts now fresh payload id workspace profile reply parent q j h in
    let q1 = (enqueue now fresh payload id workspace profile reply parent q).1 in
    ground (
      arith,
      same,
      runs-le-left c j events q1
          (enqueue-Inv c.max_attempts now fresh payload id workspace profile reply parent q v)
          (rw same h),
    )

-- Whatever the runner does, whenever the turns come and whatever else is enqueued between them: from a
-- queue with its primary key intact in which each waiting job has attempts left, a stored job is run at
-- most as often as `max_attempts`, and at least one, allows beyond the attempts that it has used.
pub runs_bounded :
    (c : WorkerConfig) (j : String) (events : List Event) (q : Queue) (r : JobRecord)
    → Inv c.max_attempts q
    → select_job j q ≡ some r
    → count (is_for j) (play c events q).0 ≤ max 1 c.max_attempts - r.attempts
runs_bounded c j events q r v h =
    let most = runs-le-left c j events q v (rw h) in ground (arith, most)
