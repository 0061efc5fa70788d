-- ===== src/Requests/Jobs/Other.antt =====
-- What the calls for one job leave of another.
use nova_adapt.Base.{
  ℕ, String, false, ◌≡◌, refl, ◌∙◌, arith, str_eq, string_eq, Option-cases, inl, inr,
}
use nova_adapt.Requests.JobStore.{JobRecord}
use nova_adapt.Requests.Jobs.{
  JobManager, working, finished, cancelled, job, future, set_future, recall, cancel, start_run,
  end_run, cancel_record, cancel_recalled, Outcome, returned, failed_with, running_record,
  ended_record, canceled_record, requested_record,
}
use nova_adapt.Requests.Jobs.Memory.{
  job-save, future-set_future, id-job, job-recall_other, future-recall,
}

-- Two managers that agree on the job.
pub record Agree (id : String) (m n : JobManager) : Type 0 where
  pub jobs : job id n ≡ job id m
  pub futures : future id n ≡ future id m

module _ (id : String) where
  cancel_record-other :
      (now : ℕ) (j : String) (r : JobRecord) (m : JobManager)
      → r.id ≡ j
      → str_eq j id ≡ false
      → Agree id m (cancel_record now j r m).1
  cancel_record-other now j r m is_id other = record {
    jobs = ground (
      arith,
      is_id,
      other,
      job-save id (canceled_record now r) (set_future j cancelled m),
      job-save id (requested_record r) m,
    );
    futures = ground (arith, other, future-set_future id j cancelled m);
  }

  cancel_recalled-other :
      (now : ℕ) (j : String) (m : JobManager)
      → str_eq j id ≡ false
      → Agree id m (cancel_recalled now j m).1
  cancel_recalled-other now j m other = elim (Option-cases (job j m)) [
    | inl gone ↦ rw gone (record { jobs = refl; futures = refl })
    | inr (r, there) ↦ rw there (cancel_record-other now j r m (id-job j r m there) other)
  ]

  pub cancel-other :
      (now : ℕ) (j : String) (m : JobManager) → str_eq j id ≡ false → Agree id m (cancel now j m).1
  unfolding cancel
  cancel-other now j m other =
      let a = cancel_recalled-other now j (recall j m) other in
      record {
        jobs = a.jobs ∙ job-recall_other id j m other;
        futures = a.futures ∙ future-recall id j m;
      }

  pub start_run-other :
      (now : ℕ) (j : String) (m : JobManager) → str_eq j id ≡ false → Agree id m (start_run now j m)
  unfolding start_run
  start_run-other now j m other = elim (Option-cases (job j m)) [
    | inl gone ↦ record {
      jobs = ground arith;
      futures = ground (arith, future-set_future id j finished m);
    }
    | inr (r, there) ↦
        let is_id = id-job j r m there in
        record {
          jobs =
              ground (
                arith,
                is_id,
                other,
                job-save id (running_record now r) (set_future r.id working m),
              );
          futures = ground (
            arith,
            is_id,
            other,
            future-set_future id r.id finished m,
            future-set_future id r.id working m,
          );
        }
  ]

  pub id-ended : (now : ℕ) (o : Outcome) (r : JobRecord) → (ended_record now o r).id ≡ r.id
  id-ended now (returned result) r = ground arith
  id-ended now (failed_with text) r = ground arith

  pub end_run-other :
      (now : ℕ) (j : String) (o : Outcome) (m : JobManager)
      → str_eq j id ≡ false
      → Agree id m (end_run now j o m)
  unfolding end_run
  end_run-other now j o m other = elim (Option-cases (job j m)) [
    | inl gone ↦ record {
      jobs = ground arith;
      futures = ground (arith, future-set_future id j finished m);
    }
    | inr (r, there) ↦
        let is_id = id-ended now o r ∙ id-job j r m there in
        record {
          jobs =
              ground
                (arith, is_id, other, job-save id (ended_record now o r) (set_future j finished m));
          futures = ground (arith, other, future-set_future id j finished m);
        }
  ]
