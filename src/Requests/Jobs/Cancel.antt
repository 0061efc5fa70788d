-- ===== src/Requests/Jobs/Cancel.antt =====
-- A job that is canceled while it runs.
use nova_adapt.Base.{
  ℕ, String, true, false, ◌≡◌, refl, sym, subst, ◌∙◌, some, List, [], ◌∷◌, arith, str_eq, eq_iff,
  string_eq, inl, inr, Bool-cases, All,
}
use nova_adapt.Base.Table
use nova_adapt.Requests.JobStore.{JobRecord, is_terminal}
use nova_adapt.Requests.Jobs.{
  JobManager, FutureEntry, pending, working, finished, job, future, future_key, save, set_future,
  submit, schedule, register, cancel, start_run, end_run, Outcome, returned, failed_with,
  queued_record, ended_record, is_canceled, requested_record, can_cancel,
}
use nova_adapt.Requests.Jobs.Memory.{job-save, id-job, recall-there}
use nova_adapt.Requests.Jobs.Events.{
  Event, submits, schedules, registers, cancels, starts, ends, apply, apply_all, KeepsRunning,
}
use nova_adapt.Requests.Jobs.Other.{Agree, cancel-other, start_run-other, end_run-other, id-ended}

-- A worker has the job, and its cancellation was requested.
pub record Stopping (id : String) (m : JobManager) : Type 0 where
  pub r : JobRecord
  pub f : FutureEntry
  pub found : job id m ≡ some r
  pub runs : str_eq r.status "running" ≡ true
  pub requested : r.cancel_requested ≡ true
  pub has : future id m ≡ some f
  pub busy : f.state ≡ working

module _ (id : String) where
  Stopping-Agree : (m n : JobManager) → Agree id m n → Stopping id m → Stopping id n
  Stopping-Agree m n a h = record {
    r = h.r;
    f = h.f;
    found = a.jobs ∙ h.found;
    runs = h.runs;
    requested = h.requested;
    has = a.futures ∙ h.has;
    busy = h.busy;
  }

  runs-open : (status : String) → str_eq status "running" ≡ true → is_terminal status ≡ false
  runs-open status h = rw ((eq_iff status "running").0 h) refl

  -- `cancel` on a running job only marks it.
  cancel-running :
      (now : ℕ) (m : JobManager) (r : JobRecord) (f : FutureEntry)
      → job id m ≡ some r
      → future id m ≡ some f
      → f.state ≡ working
      → str_eq r.status "running" ≡ true
      → Stopping id (cancel now id m).1
  unfolding cancel
  cancel-running now m r f found has busy runs =
      let refused : can_cancel (future id m) ≡ false = rw has (rw busy (ground arith)) in
      let is_id = id-job id r m found in
      rw (recall-there id r m found) (
        rw found (
          rw (runs-open r.status runs) (
            rw refused record {
              r = requested_record r;
              f = f;
              found = ground (arith, is_id, job-save id (requested_record r) m, eq_iff r.id id);
              runs = runs;
              requested = refl;
              has = has;
              busy = busy;
            })))

  start_run-busy :
      (now : ℕ) (m : JobManager) (f : FutureEntry)
      → future id m ≡ some f
      → f.state ≡ working
      → start_run now id m ≡ m
  unfolding start_run
  start_run-busy now m f has busy = rw has (rw busy refl)

  register-Stopping : (j : String) (m : JobManager) → Stopping id m → Stopping id (register j m)
  unfolding register
  register-Stopping j m h =
      let changed =
        Table.select-update future_key j id (λ f. record f { registered = true }) m.futures
          (λ x. refl) in
      elim (Bool-cases (str_eq j id)) [
        | inl same ↦ record {
          r = h.r;
          f = record h.f { registered = true };
          found = h.found;
          runs = h.runs;
          requested = h.requested;
          has = ground (arith, changed, same, h.has);
          busy = h.busy;
        }
        | inr apart ↦ record {
          r = h.r;
          f = h.f;
          found = h.found;
          runs = h.runs;
          requested = h.requested;
          has = ground (arith, changed, apart, h.has);
          busy = h.busy;
        }
      ]

  apply-Stopping :
      (ev : Event) (m : JobManager) → KeepsRunning id ev → Stopping id m → Stopping id (apply ev m)
  unfolding submit schedule
  apply-Stopping (submits now j job_meta) m other h = record {
    r = h.r;
    f = h.f;
    found = ground (arith, h.found, other, job-save id (queued_record now j job_meta) m);
    runs = h.runs;
    requested = h.requested;
    has = h.has;
    busy = h.busy;
  }
  apply-Stopping (schedules j) m other h =
      let new_future : FutureEntry = record { job_id = j; state = pending; registered = false } in
      record {
        r = h.r;
        f = h.f;
        found = h.found;
        runs = h.runs;
        requested = h.requested;
        has = ground (arith, Table.select-append future_key id m.futures new_future, h.has);
        busy = h.busy;
      }
  apply-Stopping (registers j) m other h = register-Stopping j m h
  apply-Stopping (cancels now j) m other h = elim (Bool-cases (str_eq j id)) [
    | inl same ↦
        subst (λ k. Stopping id (cancel now k m).1) (sym ((eq_iff j id).0 same))
          (cancel-running now m h.r h.f h.found h.has h.busy h.runs)
    | inr apart ↦ Stopping-Agree m (cancel now j m).1 (cancel-other id now j m apart) h
  ]
  apply-Stopping (starts now j) m other h = elim (Bool-cases (str_eq j id)) [
    | inl same ↦
        subst (λ k. Stopping id (start_run now k m)) (sym ((eq_iff j id).0 same))
          (subst (Stopping id) (sym (start_run-busy now m h.f h.has h.busy)) h)
    | inr apart ↦ Stopping-Agree m (start_run now j m) (start_run-other id now j m apart) h
  ]
  apply-Stopping (ends now j o) m other h =
      Stopping-Agree m (end_run now j o m) (end_run-other id now j o m other) h

  apply_all-Stopping :
      (evs : List Event) (m : JobManager)
      → All (KeepsRunning id) evs
      → Stopping id m
      → Stopping id (apply_all evs m)
  apply_all-Stopping [] m keep h = h
  apply_all-Stopping (ev ∷ evs) m keep h =
      apply_all-Stopping evs (apply ev m) keep.1 (apply-Stopping ev m keep.0 h)

  ended-canceled :
      (now : ℕ) (o : Outcome) (r : JobRecord)
      → r.cancel_requested ≡ true
      → (ended_record now o r).status ≡ "canceled"
  ended-canceled now (returned result) r asked =
      let stopped : is_canceled r ≡ true = ground arith in rw stopped refl
  ended-canceled now (failed_with text) r asked =
      let stopped : is_canceled r ≡ true = ground arith in rw stopped refl

  end_run-Stopping :
      (now : ℕ) (o : Outcome) (m : JobManager)
      → Stopping id m
      → (r : JobRecord) × (job id (end_run now id o m) ≡ some r) × (r.status ≡ "canceled")
  unfolding end_run
  end_run-Stopping now o m h =
      let is_id = id-ended id now o h.r ∙ id-job id h.r m h.found in
      let saved : job id (save (ended_record now o h.r) (set_future id finished m))
          ≡ some (ended_record now o h.r) =
        ground (
          arith,
          is_id,
          job-save id (ended_record now o h.r) (set_future id finished m),
          eq_iff (ended_record now o h.r).id id,
        ) in
      rw h.has (
        rw h.busy
          (rw h.found (ended_record now o h.r, saved, ended-canceled now o h.r h.requested)))

  -- A job that a worker runs, once `cancel` was called for it, ends as canceled, whether its function
  -- returns or raises, and whatever other calls come before it ends.
  pub cancel_running :
      (now later : ℕ) (m : JobManager) (r : JobRecord) (f : FutureEntry) (evs : List Event)
      (o : Outcome)
      → job id m ≡ some r
      → future id m ≡ some f
      → f.state ≡ working
      → str_eq r.status "running" ≡ true
      → All (KeepsRunning id) evs
      → (r' : JobRecord) × (job id (end_run later id o (apply_all evs (cancel now id m).1))
          ≡ some r')
        × (r'.status ≡ "canceled")
  cancel_running now later m r f evs o found has busy runs keep =
      end_run-Stopping later o (apply_all evs (cancel now id m).1) (
        apply_all-Stopping evs (cancel now id m).1 keep
          (cancel-running now m r f found has busy runs))
