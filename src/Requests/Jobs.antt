-- ===== src/Requests/Jobs.antt =====
-- `JobManager` of core/novaadapt_core/jobs.py. A method that releases the lock between two of its
-- parts is one operation for each part. The executor is the one of Python's `concurrent.futures`: a
-- future is pending until a worker takes it or `cancel` cancels it, and only then.
pub mod Events
pub mod Views
pub mod Memory
pub mod Other
pub mod Final
pub mod Cancel
pub mod Mirror
use nova_adapt.Base.{
  ℕ, zero, suc, ◌+◌, String, Bool, true, false, ◌&&◌, ◌||◌, not, Option, none, some, List, [], ◌∷◌,
  ◌++◌, map, if◌then◌else◌, str_eq, get_or, count, length, take, max, string_eq, is_some, any,
}
use nova_adapt.Base.Text.{strip, or_else}
use nova_adapt.Base.Json.{Value, Fields, null, get as get_field, truthy}
use nova_adapt.Base.Table
use nova_adapt.Base.Order.{order_by}
use nova_adapt.Requests.JobStore
use nova_adapt.Requests.JobStore.{JobRecord, Rows, key, is_terminal, newest_first}

pub data FutureState : Type 0 where
  pending : FutureState
  working : FutureState
  finished : FutureState
  cancelled : FutureState

-- A future of the executor, and whether `_futures` has it yet.
pub record FutureEntry : Type 0 where
  pub job_id : String
  pub state : FutureState
  pub registered : Bool

pub record JobManager : Type 0 where
  pub max_workers : ℕ
  pub jobs : List JobRecord
  pub futures : List FutureEntry
  pub store : Option Rows

abbrev pub future_key : FutureEntry → String
future_key f = f.job_id

abbrev pub job : String → JobManager → Option JobRecord
job id m = Table.select key id m.jobs

abbrev pub future : String → JobManager → Option FutureEntry
future id m = Table.select future_key id m.futures

-- `JobManager(…)`
unfoldable pub make_manager : ℕ → Option Rows → JobManager
make_manager max_workers store = record {
  max_workers = max 1 max_workers;
  jobs = elim store [ none ↦ [] | some rows ↦ JobStore.list 500 rows ];
  futures = [];
  store = store;
}

-- `self._jobs[id] = record`: in place, or at the end
abbrev pub put_job : JobRecord → List JobRecord → List JobRecord
put_job r jobs = Table.upsert key r (λ x. record r { id = x.id }) jobs

abbrev pub persisted : JobRecord → Option Rows → Option Rows
persisted r none = none
persisted r (some rows) = some (JobStore.upsert r rows)

-- The record as it is now, in memory, and `_persist`.
abbrev pub save : JobRecord → JobManager → JobManager
save r m = record m { jobs = put_job r m.jobs; store = persisted r m.store }

abbrev pub set_future : String → FutureState → JobManager → JobManager
set_future id state m = record m {
  futures = Table.update future_key id (λ f. record f { state = state }) m.futures;
}

abbrev pub queued_record : ℕ → String → Option Fields → JobRecord
queued_record now id job_meta = record {
  id = id;
  status = "queued";
  created_at = now;
  started_at = none;
  finished_at = none;
  result = none;
  error = none;
  cancel_requested = false;
  metadata = job_meta;
}

-- `submit`, up to the end of its first `with`; `id` is what `uuid4` makes up.
unfoldable pub submit : ℕ → String → Option Fields → JobManager → JobManager
submit now id job_meta m = save (queued_record now id job_meta) m

-- `self._executor.submit(…)` in `submit`
unfoldable pub schedule : String → JobManager → JobManager
schedule id m = record m {
  futures = m.futures ++ record { job_id = id; state = pending; registered = false } ∷ [];
}

-- The second `with` of `submit`.
unfoldable pub register : String → JobManager → JobManager
register id m = record m {
  futures = Table.update future_key id (λ f. record f { registered = true }) m.futures;
}

-- `bool(future and future.cancel())`, for what it returns
abbrev pub can_cancel : Option FutureEntry → Bool
can_cancel none = false
can_cancel (some f) =
    f.registered
    && elim f.state [ pending ↦ true | cancelled ↦ true | working ↦ false | finished ↦ false ]

pub record CancelOutcome : Type 0 where
  pub id : String
  pub canceled : Bool
  pub status : String
  pub message : String

abbrev pub canceled_record : ℕ → JobRecord → JobRecord
canceled_record now r = record r {
  status = "canceled";
  cancel_requested = true;
  finished_at = some now;
}

abbrev pub requested_record : JobRecord → JobRecord
requested_record r = record r { cancel_requested = true }

-- `cancel`, from `future = …`
abbrev pub cancel_record : ℕ → String → JobRecord → JobManager → CancelOutcome × JobManager
cancel_record now id r m =
    if is_terminal r.status
    then (
      record { id = id; canceled = false; status = r.status; message = "Job already finished" },
      m,
    )
    else if can_cancel (future id m)
    then (
      record {
        id = id;
        canceled = true;
        status = "canceled";
        message = "Job canceled before execution";
      },
      save (canceled_record now r) (set_future id cancelled m),
    )
    else (
      record {
        id = id;
        canceled = false;
        status = r.status;
        message = "Job already running; cancellation requested";
      },
      save (requested_record r) m,
    )

-- A job that memory lacks and the store has is put in memory.
abbrev pub recall : String → JobManager → JobManager
recall id m = if is_some (job id m) then m else elim m.store [
  | none ↦ m
  | some rows ↦ elim (JobStore.get_row id rows) [
    | none ↦ m
    | some r ↦ record m { jobs = put_job r m.jobs }
  ]
]

abbrev pub cancel_found :
    ℕ → String → JobManager → Option JobRecord → Option CancelOutcome × JobManager
cancel_found now id m none = (none, m)
cancel_found now id m (some r) = let (o, m2) = cancel_record now id r m in (some o, m2)

abbrev pub cancel_recalled : ℕ → String → JobManager → Option CancelOutcome × JobManager
cancel_recalled now id m = cancel_found now id m (job id m)

-- `cancel`
unfoldable pub cancel : ℕ → String → JobManager → Option CancelOutcome × JobManager
cancel now id m = cancel_recalled now id (recall id m)

abbrev pub is_pending : Option FutureEntry → Bool
is_pending none = false
is_pending (some f) = elim f.state [ pending ↦ true | _ ↦ false ]

abbrev pub is_working : Option FutureEntry → Bool
is_working none = false
is_working (some f) = elim f.state [ working ↦ true | _ ↦ false ]

abbrev pub running_record : ℕ → JobRecord → JobRecord
running_record now r = record r { status = "running"; started_at = some now }

abbrev begin_run : ℕ → JobRecord → JobManager → JobManager
begin_run now r m =
    if str_eq r.status "canceled"
    then set_future r.id finished m
    else save (running_record now r) (set_future r.id working m)

-- A worker takes a pending future, and `_run` goes up to the end of its first `with`.
unfoldable pub start_run : ℕ → String → JobManager → JobManager
start_run now id m =
    if is_pending (future id m)
    then elim (job id m) [ none ↦ set_future id finished m | some r ↦ begin_run now r m ]
    else m

-- What the call of `fn` does.
pub data Outcome : Type 0 where
  returned : Fields → Outcome
  failed_with : String → Outcome

abbrev pub canceled_text : String
canceled_text = "Canceled by operator"

abbrev pub is_canceled : JobRecord → Bool
is_canceled r = str_eq r.status "canceled" || r.cancel_requested

-- What `_run` writes after the call of `fn`.
abbrev pub ended_record : ℕ → Outcome → JobRecord → JobRecord
ended_record now (returned result) r =
    if is_canceled r
    then record r {
      status = "canceled";
      result = some result;
      error = some (or_else (get_or "" r.error) canceled_text);
      finished_at = some now;
    }
    else record r { status = "succeeded"; result = some result; finished_at = some now }
ended_record now (failed_with text) r =
    if is_canceled r
    then record r {
      status = "canceled";
      error = some (or_else text canceled_text);
      finished_at = some now;
    }
    else record r { status = "failed"; error = some text; finished_at = some now }

-- `_run`, from the end of the call of `fn`
unfoldable pub end_run : ℕ → String → Outcome → JobManager → JobManager
end_run now id outcome m =
    if is_working (future id m)
    then elim (job id m) [
      | none ↦ set_future id finished m
      | some r ↦ save (ended_record now outcome r) (set_future id finished m)
    ]
    else m

-- `_is_cancel_requested`
unfoldable pub is_cancel_requested : String → JobManager → Bool
is_cancel_requested id m = elim (job id m) [ none ↦ false | some r ↦ r.cancel_requested ]
