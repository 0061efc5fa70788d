-- ===== src/Requests/Jobs/Final.antt =====
-- A job that has ended stays as it is.
use nova_adapt.Base.{
  ℕ, String, true, false, ◌≡◌, refl, sym, ap, subst, ◌∙◌, some, List, [], ◌∷◌, arith, str_eq,
  eq_iff, string_eq, Option-cases, inl, inr, beq_refl, Bool-cases, All,
}
use nova_adapt.Base.Table
use nova_adapt.Requests.JobStore.{JobRecord, is_terminal}
use nova_adapt.Requests.Jobs.{
  JobManager, FutureEntry, pending, working, finished, cancelled, job, future, future_key,
  set_future, submit, schedule, register, cancel, start_run, end_run, is_pending, is_working,
  Outcome, returned, failed_with, queued_record, ended_record, canceled_record, is_canceled,
}
use nova_adapt.Requests.Jobs.Memory.{job-save, future-set_future, id-job, recall-there}
use nova_adapt.Requests.Jobs.Events.{
  Event, submits, schedules, registers, cancels, starts, ends, apply, apply_all, IsFresh,
}
use nova_adapt.Requests.Jobs.Other.{Agree, cancel-other, start_run-other, end_run-other, id-ended}

-- The job is over, and no worker has it or will take it.
pub record Settled (id : String) (r : JobRecord) (m : JobManager) : Type 0 where
  pub found : job id m ≡ some r
  pub over : is_terminal r.status ≡ true
  pub untaken : is_pending (future id m) ≡ false
  pub idle : is_working (future id m) ≡ false

module _ (id : String) where
  Settled-Agree :
      (r : JobRecord) (m n : JobManager) → Agree id m n → Settled id r m → Settled id r n
  Settled-Agree r m n a h = record {
    found = a.jobs ∙ h.found;
    over = h.over;
    untaken = ap is_pending a.futures ∙ h.untaken;
    idle = ap is_working a.futures ∙ h.idle;
  }

  cancel-Settled :
      (now : ℕ) (r : JobRecord) (m : JobManager) → Settled id r m → (cancel now id m).1 ≡ m
  unfolding cancel
  cancel-Settled now r m h = rw (recall-there id r m h.found) (rw h.found (rw h.over refl))

  register-Settled :
      (j : String) (r : JobRecord) (m : JobManager) → Settled id r m → Settled id r (register j m)
  unfolding register
  register-Settled j r m h =
      let found =
        Table.select-update future_key j id (λ f. record f { registered = true }) m.futures
          (λ x. refl) in
      elim (Option-cases (future id m)) [
        | inl free ↦ record {
          found = h.found;
          over = h.over;
          untaken = ground (arith, found, free, h.untaken);
          idle = ground (arith, found, free, h.idle);
        }
        | inr (f, there) ↦ record {
          found = h.found;
          over = h.over;
          untaken = ground (arith, found, there, h.untaken);
          idle = ground (arith, found, there, h.idle);
        }
      ]

  start_run-Settled :
      (now : ℕ) (r : JobRecord) (m : JobManager) → Settled id r m → start_run now id m ≡ m
  unfolding start_run
  start_run-Settled now r m h = rw h.untaken refl

  end_run-Settled :
      (now : ℕ) (o : Outcome) (r : JobRecord) (m : JobManager)
      → Settled id r m
      → end_run now id o m ≡ m
  unfolding end_run
  end_run-Settled now o r m h = rw h.idle refl

  apply-Settled :
      (ev : Event) (r : JobRecord) (m : JobManager)
      → IsFresh id ev
      → Settled id r m
      → Settled id r (apply ev m)
  unfolding submit schedule start_run end_run
  apply-Settled (submits now j job_meta) r m other h = record {
    found = ground (arith, h.found, other, job-save id (queued_record now j job_meta) m);
    over = h.over;
    untaken = h.untaken;
    idle = h.idle;
  }
  apply-Settled (schedules j) r m other h =
      let new_future : FutureEntry = record { job_id = j; state = pending; registered = false } in
      let appended = Table.select-append future_key id m.futures new_future in
      record {
        found = h.found;
        over = h.over;
        untaken = ground (arith, appended, other, h.untaken);
        idle = ground (arith, appended, other, h.idle);
      }
  apply-Settled (registers j) r m other h = register-Settled j r m h
  apply-Settled (cancels now j) r m other h = elim (Bool-cases (str_eq j id)) [
    | inl same ↦
        subst (λ k. Settled id r (cancel now k m).1) (sym ((eq_iff j id).0 same))
          (subst (Settled id r) (sym (cancel-Settled now r m h)) h)
    | inr apart ↦ Settled-Agree r m (cancel now j m).1 (cancel-other id now j m apart) h
  ]
  apply-Settled (starts now j) r m other h = elim (Bool-cases (str_eq j id)) [
    | inl same ↦
        subst (λ k. Settled id r (start_run now k m)) (sym ((eq_iff j id).0 same))
          (subst (Settled id r) (sym (start_run-Settled now r m h)) h)
    | inr apart ↦ Settled-Agree r m (start_run now j m) (start_run-other id now j m apart) h
  ]
  apply-Settled (ends now j o) r m other h = elim (Bool-cases (str_eq j id)) [
    | inl same ↦
        subst (λ k. Settled id r (end_run now k o m)) (sym ((eq_iff j id).0 same))
          (subst (Settled id r) (sym (end_run-Settled now o r m h)) h)
    | inr apart ↦ Settled-Agree r m (end_run now j o m) (end_run-other id now j o m apart) h
  ]

  apply_all-Settled :
      (evs : List Event) (r : JobRecord) (m : JobManager)
      → All (IsFresh id) evs
      → Settled id r m
      → Settled id r (apply_all evs m)
  apply_all-Settled [] r m fresh h = h
  apply_all-Settled (ev ∷ evs) r m fresh h =
      apply_all-Settled evs r (apply ev m) fresh.1 (apply-Settled ev r m fresh.0 h)

  module _ (now : ℕ) (r : JobRecord) (m : JobManager) (found : job id m ≡ some r) (f : FutureEntry)
      (has : future id m ≡ some f) where
    after_cancel :
        f.state ≡ pending
        → f.registered ≡ true
        → is_terminal r.status ≡ false
        → Settled id (canceled_record now r) (cancel now id m).1
    unfolding cancel
    after_cancel waiting known unfinished =
        let is_id = id-job id r m found in
        rw (recall-there id r m found) (
          rw found (
            rw unfinished (
              rw has (
                rw known (
                  rw waiting record {
                    found = ground (
                      arith,
                      is_id,
                      job-save id (canceled_record now r) (set_future id cancelled m),
                      eq_iff r.id id,
                    );
                    over = refl;
                    untaken = ground (arith, has, future-set_future id id cancelled m, beq_refl id);
                    idle = ground (arith, has, future-set_future id id cancelled m, beq_refl id);
                  })))))

    -- A job that is not over, and whose future is known and still pending, is canceled by `cancel`,
    -- and whatever calls follow, those of its worker included, never runs: its record stays the one
    -- that `cancel` wrote. No other job is submitted under its identifier.
    pub cancel_pending :
        (evs : List Event)
        → f.state ≡ pending
        → f.registered ≡ true
        → is_terminal r.status ≡ false
        → All (IsFresh id) evs
        → job id (apply_all evs (cancel now id m).1) ≡ some (canceled_record now r)
    cancel_pending evs waiting known unfinished fresh =
        (apply_all-Settled evs (canceled_record now r) (cancel now id m).1 fresh
          (after_cancel waiting known unfinished)).found

    ended-over : (o : Outcome) → is_terminal (ended_record now o r).status ≡ true
    ended-over (returned result) = elim (Bool-cases (is_canceled r)) [
      | inl stopped ↦ rw stopped refl
      | inr through ↦ rw through refl
    ]
    ended-over (failed_with text) = elim (Bool-cases (is_canceled r)) [
      | inl stopped ↦ rw stopped refl
      | inr through ↦ rw through refl
    ]

    after_end :
        (o : Outcome) → f.state ≡ working → Settled id (ended_record now o r) (end_run now id o m)
    unfolding end_run
    after_end o busy =
        let is_id = id-ended id now o r ∙ id-job id r m found in
        rw has (
          rw busy (
            rw found record {
              found = ground (
                arith,
                is_id,
                job-save id (ended_record now o r) (set_future id finished m),
                eq_iff (ended_record now o r).id id,
              );
              over = ended-over o;
              untaken = ground (arith, has, future-set_future id id finished m, beq_refl id);
              idle = ground (arith, has, future-set_future id id finished m, beq_refl id);
            }))

    -- When the worker of a job comes back, the record that it writes is final: whatever calls follow
    -- leave it as it is. No other job is submitted under its identifier.
    pub end_is_final :
        (o : Outcome) (evs : List Event)
        → f.state ≡ working
        → All (IsFresh id) evs
        → job id (apply_all evs (end_run now id o m)) ≡ some (ended_record now o r)
    end_is_final o evs busy fresh =
        (apply_all-Settled evs (ended_record now o r) (end_run now id o m) fresh
          (after_end o busy)).found
