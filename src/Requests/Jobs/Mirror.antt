-- ===== src/Requests/Jobs/Mirror.antt =====
-- The store has what memory has.
pub mod Saves
use nova_adapt.Base.{
  ℕ, String, ◌≡◌, refl, sym, ap, subst, ◌∙◌, none, some, arith, str_eq, eq_iff, string_eq,
  Option-cases, inl, inr, Bool-cases, take, All-take,
}
use nova_adapt.Base.Table
use nova_adapt.Base.Table.Keys.{Keyed, select_self}
use nova_adapt.Base.Order.{order_by, All-order_by}
use nova_adapt.Requests.JobStore
use nova_adapt.Requests.JobStore.{
  JobRecord, Rows, key, newest_first, get_row-upsert, get_row-upsert_other, is_terminal,
}
use nova_adapt.Requests.Jobs.{
  JobManager, FutureState, make_manager, returned, failed_with, finished, cancelled, working, job,
  future, save, set_future, recall, submit, schedule, register, cancel, cancel_found, cancel_record,
  start_run, end_run, is_pending, is_working, Outcome, queued_record, running_record, ended_record,
  canceled_record, requested_record, can_cancel,
}
use nova_adapt.Requests.Jobs.Memory.{job-save, id-job}
use nova_adapt.Requests.Jobs.Other.{id-ended}
use nova_adapt.Requests.Jobs.Events.{
  Event, submits, schedules, registers, cancels, starts, ends, apply,
}
use nova_adapt.Requests.Jobs.Mirror.Saves.{
  Mirrored, save-Mirrored, saved-Mirrored, set_future-Mirrored, recall-Mirrored,
}

cancel_record-Mirrored :
    (now : ℕ) (id : String) (r : JobRecord) (m : JobManager)
    → Mirrored m
    → job id m ≡ some r
    → Mirrored (cancel_record now id r m).1
cancel_record-Mirrored now id r m h there = elim (Bool-cases (is_terminal r.status)) [
  | inl over ↦ rw over h
  | inr unfinished ↦ rw unfinished (elim (Bool-cases (can_cancel (future id m))) [
    | inl can ↦ rw can (
        saved-Mirrored id r (canceled_record now r) (set_future id cancelled m)
          (set_future-Mirrored id cancelled m h) there refl refl)
    | inr cannot ↦ rw cannot (saved-Mirrored id r (requested_record r) m h there refl refl)
  ])
]

cancel_found-Mirrored :
    (now : ℕ) (id : String) (m : JobManager)
    → Mirrored m
    → Mirrored (cancel_found now id m (job id m)).1
cancel_found-Mirrored now id m h = elim (Option-cases (job id m)) [
  | inl gone ↦ rw gone h
  | inr (r, there) ↦ rw there (cancel_record-Mirrored now id r m h there)
]

start_run-Mirrored :
    (now : ℕ) (id : String) (m : JobManager) → Mirrored m → Mirrored (start_run now id m)
unfolding start_run
start_run-Mirrored now id m h = elim (Bool-cases (is_pending (future id m))) [
  | inr cannot ↦ rw cannot h
  | inl can ↦ rw can (elim (Option-cases (job id m)) [
    | inl gone ↦ rw gone (set_future-Mirrored id finished m h)
    | inr (r, there) ↦ rw there (elim (Bool-cases (str_eq r.status "canceled")) [
      | inl over ↦ rw over (set_future-Mirrored r.id finished m h)
      | inr fresh ↦ rw fresh (
          saved-Mirrored id r (running_record now r) (set_future r.id working m)
            (set_future-Mirrored r.id working m h) there refl refl)
    ])
  ])
]

created-ended :
    (now : ℕ) (o : Outcome) (r : JobRecord) → (ended_record now o r).created_at ≡ r.created_at
created-ended now (returned result) r = ground arith
created-ended now (failed_with text) r = ground arith

end_run-Mirrored :
    (now : ℕ) (id : String) (o : Outcome) (m : JobManager)
    → Mirrored m
    → Mirrored (end_run now id o m)
unfolding end_run
end_run-Mirrored now id o m h = elim (Bool-cases (is_working (future id m))) [
  | inr cannot ↦ rw cannot h
  | inl can ↦ rw can (elim (Option-cases (job id m)) [
    | inl gone ↦ rw gone (set_future-Mirrored id finished m h)
    | inr (r, there) ↦ rw there (
        saved-Mirrored id r (ended_record now o r) (set_future id finished m)
          (set_future-Mirrored id finished m h) there (id-ended r.id now o r)
          (created-ended now o r))
  ])
]

-- A job is submitted under an identifier that the store lacks.
abbrev pub IsNew : Event → JobManager → Type 0
IsNew (submits now id job_meta) m =
    (rows : Rows) → m.store ≡ some rows → JobStore.get_row id rows ≡ none
IsNew _ m = Unit

apply-Mirrored : (ev : Event) (m : JobManager) → IsNew ev m → Mirrored m → Mirrored (apply ev m)
unfolding submit schedule register cancel
apply-Mirrored (submits now id job_meta) m new_id h =
    save-Mirrored (queued_record now id job_meta) m
      (λ rows old has stored. absurd (ground (arith, new_id rows has))) h
apply-Mirrored (schedules id) m new_id h = record { same = h.same }
apply-Mirrored (registers id) m new_id h = record { same = h.same }
apply-Mirrored (cancels now id) m new_id h =
    cancel_found-Mirrored now id (recall id m) (recall-Mirrored id m h)
apply-Mirrored (starts now id) m new_id h = start_run-Mirrored now id m h
apply-Mirrored (ends now id o) m new_id h = end_run-Mirrored now id o m h

-- The states that calls reach, each submission under a new identifier.
pub data Reaches : JobManager → JobManager → Type 0 where
  here : {m : JobManager} → Reaches m m
  step : {m n : JobManager} (ev : Event) → IsNew ev m → Reaches (apply ev m) n → Reaches m n

Reaches-Mirrored : (m n : JobManager) → Reaches m n → Mirrored m → Mirrored n
Reaches-Mirrored m _ here h = h
Reaches-Mirrored m n (step ev new_id run) h =
    Reaches-Mirrored (apply ev m) n run (apply-Mirrored ev m new_id h)

loaded-Mirrored :
    (max_workers : ℕ) (rows : Rows)
    → Keyed key rows
    → Mirrored (make_manager max_workers (some rows))
unfolding make_manager JobStore.list JobStore.get_row
loaded-Mirrored max_workers rows keyed = record {
  same = λ id r rows' has there.
      let is_rows : rows ≡ rows' = ground arith in
      let listed = take 500 (order_by newest_first rows) in
      let selves =
        All-take (λ x. Table.select key (key x) rows ≡ some x) 500 (order_by newest_first rows)
          (All-order_by newest_first (λ x. Table.select key (key x) rows ≡ some x) rows
            (select_self key rows keyed)) in
      let mine : Table.select key r.id rows ≡ some r =
        Table.All-select key (λ x. Table.select key (key x) rows ≡ some x) id listed r selves
          there in
      subst (λ rs. Table.select key id rs ≡ some r) is_rows
        (subst (λ k. Table.select key k rows ≡ some r) (Table.key-select key id listed r there)
          mine);
}

-- A manager that was made over a store whose identifiers are unique, and then got any calls, each
-- submission under an identifier that the store lacked: what it has in memory under an identifier is
-- what its store has under it.
pub store_mirrors :
    (max_workers : ℕ) (rows : Rows) (m : JobManager) (id : String) (r : JobRecord) (rows' : Rows)
    → Keyed key rows
    → Reaches (make_manager max_workers (some rows)) m
    → m.store ≡ some rows'
    → job id m ≡ some r
    → JobStore.get_row id rows' ≡ some r
store_mirrors max_workers rows m id r rows' keyed run has there =
    (Reaches-Mirrored (make_manager max_workers (some rows)) m run
        (loaded-Mirrored max_workers rows keyed)).same
      id r rows' has there
