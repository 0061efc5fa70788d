-- ===== src/Gateway/Queue/Marks.antt =====
-- What the rows are after `mark_done` and `mark_failed`.
use nova_adapt.Base.{
  second, ℕ, ◌+◌, ◌<◌, String, beq_refl, ◌≡◌, false, none, some, arith, string_eq, str_eq,
  if◌then◌else◌, max, leb, Bool-cases, inl, inr, subst,
}
use mathlib.Core.Option
use nova_adapt.Base.Table
use nova_adapt.Base.Table.Keys.{Keyed-update}
use nova_adapt.Gateway.Queue.{
  JobRecord, Queue, job_key, select_job, write_job, claimable, mark_failed, failed_job,
  mark_failed_row,
}
use nova_adapt.Gateway.Queue.Claim.{IsKeyed}

pub select_job-write_job :
    (id j : String) (f : JobRecord → JobRecord) (q : Queue)
    → ((r : JobRecord) → (f r).job_id ≡ r.job_id)
    → select_job j (write_job id f q)
      ≡ (if str_eq id j then Option.map f (select_job j q) else select_job j q)
select_job-write_job id j f q keep = Table.select-update job_key id j f q.jobs keep

pub IsKeyed-write_job :
    (id : String) (f : JobRecord → JobRecord) (q : Queue)
    → ((r : JobRecord) → (f r).job_id ≡ r.job_id)
    → IsKeyed q
    → IsKeyed (write_job id f q)
IsKeyed-write_job id f q keep h = Keyed-update job_key id f q.jobs keep h

pub failed_job-id :
    (now delay limit attempts : ℕ) (r : JobRecord)
    → (failed_job now delay limit attempts r).job_id ≡ r.job_id
failed_job-id now delay limit attempts r = ground arith

pub mark_failed-some :
    (now delay limit : ℕ) (id : String) (q : Queue) (r : JobRecord)
    → select_job id q ≡ some r
    → mark_failed now delay limit id q ≡ (
      if leb (max 1 limit) (r.attempts + 1) then "failed" else "retry_wait",
      write_job id (failed_job now delay limit (r.attempts + 1)) q,
    )
unfolding mark_failed
mark_failed-some now delay limit id q r h = rw (h, mark_failed_row)

pub mark_failed-none :
    (now delay limit : ℕ) (id : String) (q : Queue)
    → select_job id q ≡ none
    → mark_failed now delay limit id q ≡ ("missing", q)
unfolding mark_failed
mark_failed-none now delay limit id q h = rw (h, mark_failed_row)

pub select_job-mark_failed :
    (now delay limit : ℕ) (id : String) (q : Queue) (r : JobRecord)
    → select_job id q ≡ some r
    → select_job id (mark_failed now delay limit id q).1
      ≡ some (failed_job now delay limit (r.attempts + 1) r)
select_job-mark_failed now delay limit id q r h =
    let f = failed_job now delay limit (r.attempts + 1) in
    ground (
      arith,
      mark_failed-some now delay limit id q r h,
      select_job-write_job id id f q (failed_job-id now delay limit (r.attempts + 1)),
      beq_refl id,
    )

failed_job-not_due :
    (now delay limit attempts later : ℕ) (r : JobRecord)
    → later < now + max second delay
    → claimable later (failed_job now delay limit attempts r) ≡ false
failed_job-not_due now delay limit attempts later r early =
    elim (Bool-cases (leb (max 1 limit) attempts)) [
      | inl spent ↦ rw spent
      | inr more ↦ rw more (ground arith)
    ]

-- A job that has just failed at the time `now` is not due for a retry before `now` and the delay,
-- and at least one second, have passed; one that has used up its attempts is never due again.
pub mark_failed-not_due :
    (now delay limit later : ℕ) (id : String) (q : Queue) (r r' : JobRecord)
    → select_job id q ≡ some r
    → select_job id (mark_failed now delay limit id q).1 ≡ some r'
    → later < now + max second delay
    → claimable later r' ≡ false
mark_failed-not_due now delay limit later id q r r' h h' early =
    let is_r' : failed_job now delay limit (r.attempts + 1) r ≡ r' =
      ground (arith, select_job-mark_failed now delay limit id q r h) in
    subst (λ x. claimable later x ≡ false) is_r'
      (failed_job-not_due now delay limit (r.attempts + 1) later r early)
