-- ===== src/Gateway/Worker/Retries.antt =====
-- How often the worker runs a job.
use nova_adapt.Base.{
  ℕ, ◌+◌, ◌-◌, ◌≤◌, ◌<◌, String, beq_refl, ◌≡◌, ◌≢◌, refl, ◌∙◌, true, Option, none, some, arith,
  string_eq, str_eq, eq_iff, if◌then◌else◌, All, max, Bool, ◌&&◌, Bool-cases, Option-cases, inl,
  inr, is_some, subst,
}
use nova_adapt.Base.Json.{Fields}
use nova_adapt.Base.Table
use nova_adapt.Gateway.Queue.{
  JobRecord, Queue, job_key, select_job, running, claim_next, mark_done, failed_job,
}
use nova_adapt.Gateway.Queue.Claim.{IsKeyed, Claims, claim_next-Claims, claim_next-idle}
use nova_adapt.Gateway.Queue.Marks.{
  select_job-write_job, IsKeyed-write_job, mark_failed-some, failed_job-id, select_job-mark_failed,
}
use nova_adapt.Gateway.Queue.Budget.{
  InBudget, left, claimable-waits, InBudget-running, InBudget-failed_job, left_of-failed_job,
}
use nova_adapt.Gateway.Worker.{
  WorkerConfig, WorkerOutcome, finish, process_once, try_result, process_claimed,
}

-- The queue as the worker keeps it.
pub record Inv (limit : ℕ) (q : Queue) : Type 0 where
  pub keyed : IsKeyed q
  pub budget : All (InBudget limit) q.jobs

module _ (c : WorkerConfig) (later : ℕ) (job : JobRecord) (q : Queue) (row : JobRecord)
    (held : select_job job.job_id q ≡ some row) where
  finish-others :
      (p : Option Fields × String) (j : String)
      → job.job_id ≢ j
      → select_job j (finish c later job p q).1 ≡ select_job j q
  unfolding finish mark_done
  finish-others (some payload, e) j ne = ground (
    arith,
    select_job-write_job job.job_id j (λ r. record r { status = "done"; updated_at = later }) q
        (λ r. refl),
    eq_iff job.job_id j,
  )
  finish-others (none, e) j ne = ground (
    arith,
    mark_failed-some later c.retry_delay c.max_attempts job.job_id q row held,
    select_job-write_job job.job_id j
        (failed_job later c.retry_delay c.max_attempts (row.attempts + 1)) q
        (failed_job-id later c.retry_delay c.max_attempts (row.attempts + 1)),
    eq_iff job.job_id j,
  )

  finish-left :
      (p : Option Fields × String)
      → row.attempts < max 1 c.max_attempts
      → left c.max_attempts job.job_id (finish c later job p q).1 + 1
        ≤ max 1 c.max_attempts - row.attempts
  unfolding finish mark_done
  finish-left (some payload, e) room = ground (
    arith,
    select_job-write_job job.job_id job.job_id
        (λ r. record r { status = "done"; updated_at = later }) q (λ r. refl),
    beq_refl job.job_id,
  )
  finish-left (none, e) room =
      rw (select_job-mark_failed later c.retry_delay c.max_attempts job.job_id q row held)
        (left_of-failed_job c.max_attempts later c.retry_delay row row room)

  finish-Inv :
      (p : Option Fields × String)
      → Inv c.max_attempts q
      → Inv c.max_attempts (finish c later job p q).1
  unfolding finish mark_done
  finish-Inv (some payload, e) v =
      let f : JobRecord → JobRecord = λ r. record r { status = "done"; updated_at = later } in
      record {
        keyed = IsKeyed-write_job job.job_id f q (λ r. refl) v.keyed;
        budget =
            Table.All-update job_key (InBudget c.max_attempts) job.job_id f q.jobs (λ r b h. cc)
              v.budget;
      }
  finish-Inv (none, e) v =
      let f = failed_job later c.retry_delay c.max_attempts (row.attempts + 1) in
      rw (mark_failed-some later c.retry_delay c.max_attempts job.job_id q row held) (record {
        keyed =
            IsKeyed-write_job job.job_id f q
              (failed_job-id later c.retry_delay c.max_attempts (row.attempts + 1)) v.keyed;
        budget =
            Table.All-update job_key (InBudget c.max_attempts) job.job_id f q.jobs
              (λ r b. InBudget-failed_job c.max_attempts later c.retry_delay (row.attempts + 1) r)
              v.budget;
      })

  finish-outcome :
      (p : Option Fields × String)
      → ((finish c later job p q).0.processed ≡ true)
        × ((finish c later job p q).0.job_id ≡ job.job_id)
  unfolding finish
  finish-outcome (some payload, e) = (refl, refl)
  finish-outcome (none, e) = (refl, refl)

  finish-stays :
      (p : Option Fields × String)
      → is_some (select_job job.job_id (finish c later job p q).1) ≡ true
  unfolding finish mark_done
  finish-stays (some payload, e) = ground (
    arith,
    select_job-write_job job.job_id job.job_id
        (λ r. record r { status = "done"; updated_at = later }) q (λ r. refl),
    beq_refl job.job_id,
  )
  finish-stays (none, e) =
      rw (select_job-mark_failed later c.retry_delay c.max_attempts job.job_id q row held)

-- What one turn of the worker does to the budget of job `j`, and to the invariant.
pub record Turn (limit : ℕ) (j : String) (q : Queue) (o : WorkerOutcome) (q' : Queue) : Type 0 where
  pub inv : Inv limit q'
  pub stays : is_some (select_job j q) ≡ true → is_some (select_job j q') ≡ true
  pub spent : left limit j q' + (if o.processed && str_eq o.job_id j then 1 else 0) ≤ left limit j q

abbrev pub is_for : String → WorkerOutcome → Bool
is_for j o = o.processed && str_eq o.job_id j

module _ (c : WorkerConfig) (now later : ℕ) (j : String) (q : Queue)
    (v : Inv c.max_attempts q) where
  module _ (job : JobRecord) (q1 : Queue) (k : Claims now q job q1) where
    claimed-Inv : Inv c.max_attempts q1
    claimed-Inv = rw k.written (record {
      keyed = IsKeyed-write_job job.job_id (running now) q (λ r. refl) v.keyed;
      budget =
          Table.All-update job_key (InBudget c.max_attempts) job.job_id (running now) q.jobs
            (λ r b. InBudget-running c.max_attempts now r) v.budget;
    })

    room : k.row.attempts < max 1 c.max_attempts
    room =
        Table.All-select job_key (InBudget c.max_attempts) job.job_id q.jobs k.row v.budget k.stored
          (claimable-waits now k.row k.due)

    claimed-Turn :
        (p : Option Fields × String)
        → Turn c.max_attempts j q (finish c later job p q1).0 (finish c later job p q1).1
    claimed-Turn p =
        let out = finish-outcome c later job q1 (running now k.row) k.taken p in
        let waits = claimable-waits now k.row k.due in
        let outcome = finish c later job p q1 in
        elim (Bool-cases (str_eq job.job_id j)) [
          | inl same ↦
              let e : job.job_id ≡ j = (eq_iff job.job_id j).0 same in
              let fewer = finish-left c later job q1 (running now k.row) k.taken p room in
              subst (λ i. Turn c.max_attempts i q outcome.0 outcome.1) e
                (record {
                  inv = finish-Inv c later job q1 (running now k.row) k.taken p claimed-Inv;
                  stays = λ _. finish-stays c later job q1 (running now k.row) k.taken p;
                  spent = ground (arith, k.stored, beq_refl job.job_id);
                })
          | inr other ↦
              let ne : job.job_id ≢ j = λ e. cc ((eq_iff job.job_id j).1 e) in
              let unclaimed : select_job j q1 ≡ select_job j q = k.rows j ∙ rw other refl in
              let kept =
                finish-others c later job q1 (running now k.row) k.taken p j ne ∙ unclaimed in
              record {
                inv = finish-Inv c later job q1 (running now k.row) k.taken p claimed-Inv;
                stays = λ h. rw kept h;
                spent = rw kept (ground arith);
              }
        ]

  pub process_once-Turn :
      Turn c.max_attempts j q (process_once c now later q).0 (process_once c now later q).1
  unfolding process_once
  process_once-Turn = elim (Option-cases (claim_next now q).0) [
    | inl idle ↦
        let same : claim_next now q ≡ (none, q) = ground (arith, (claim_next-idle now q idle).1) in
        rw same (record { inv = v; stays = λ h. h; spent = omega arith })
    | inr (job, given) ↦
        let q1 = (claim_next now q).1 in
        let same : claim_next now q ≡ (some job, q1) = ground arith in
        rw (same, process_claimed)
          (claimed-Turn job q1 (claim_next-Claims now q job v.keyed given) (try_result c job))
  ]
