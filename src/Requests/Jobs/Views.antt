-- ===== src/Requests/Jobs/Views.antt =====
-- The reading methods of `JobManager` of core/novaadapt_core/jobs.py, `_serialize`, and `cancel_all`.
use nova_adapt.Base.{
  ℕ, ◌+◌, String, Bool, ◌||◌, Option, none, some, List, [], ◌∷◌, ◌++◌, map, if◌then◌else◌, str_eq,
  get_or, count, length, take, max,
}
use nova_adapt.Base.Text.{strip, or_else}
use nova_adapt.Base.Json.{Value, Fields, null, get as get_field, truthy}
use nova_adapt.Base.Order.{order_by}
use nova_adapt.Requests.JobStore
use nova_adapt.Requests.JobStore.{JobRecord, key, newest_first}
use nova_adapt.Requests.Jobs.{JobManager, CancelOutcome, job, cancel}

-- What `_serialize` adds to the record, and `_row_to_dict` to the row.
pub record JobView : Type 0 where
  pub record_of : JobRecord
  pub kind : String
  pub objective : String

module _ (to_text : Value → String) where
  -- `str(metadata.get(k) or "").strip()`
  abbrev meta_text : String → Option Fields → String
  meta_text k none = ""
  meta_text k (some d) =
      let v = get_or null (get_field k d) in strip (if truthy v then to_text v else "")

  -- `_serialize`
  unfoldable pub serialize : JobRecord → JobView
  serialize r = record {
    record_of = r;
    kind = or_else (meta_text "kind" r.metadata) "run";
    objective = meta_text "objective" r.metadata;
  }

  -- `get`
  unfoldable pub get : String → JobManager → Option JobView
  unfolding serialize
  get id m = elim (job id m) [
    | some r ↦ some (serialize r)
    | none ↦ elim m.store [
      | none ↦ none
      | some rows ↦ elim (JobStore.get_row id rows) [ none ↦ none | some r ↦ some (serialize r) ]
    ]
  ]

  -- `list`
  unfoldable pub list : ℕ → JobManager → List JobView
  unfolding serialize
  list limit m = elim m.jobs [
    | r ∷ jobs ↦ map serialize (take (max 1 limit) (order_by newest_first m.jobs))
    | [] ↦ elim m.store [ none ↦ [] | some rows ↦ map serialize (JobStore.list limit rows) ]
  ]

pub record Stats : Type 0 where
  pub total : ℕ
  pub queued : ℕ
  pub running : ℕ
  pub succeeded : ℕ
  pub failed : ℕ
  pub canceled : ℕ
  pub cancel_requested : ℕ
  pub active : ℕ
  pub max_workers : ℕ

abbrev pub has_status : String → JobRecord → Bool
has_status status r = str_eq r.status status

-- `stats`
unfoldable pub stats : JobManager → Stats
stats m = record {
  total = length m.jobs;
  queued = count (has_status "queued") m.jobs;
  running = count (has_status "running") m.jobs;
  succeeded = count (has_status "succeeded") m.jobs;
  failed = count (has_status "failed") m.jobs;
  canceled = count (has_status "canceled") m.jobs;
  cancel_requested = count (λ r. r.cancel_requested) m.jobs;
  active = count (has_status "queued") m.jobs + count (has_status "running") m.jobs;
  max_workers = m.max_workers;
}

pub record CancelAll : Type 0 where
  pub total_jobs : ℕ
  pub canceled_now : ℕ
  pub cancel_requested : ℕ
  pub results : List CancelOutcome
  pub stats : Stats

-- The loop of `cancel_all`, on what it has collected; the clock is read at each call of `cancel`.
abbrev pub tally : Option CancelOutcome → ℕ × ℕ × List CancelOutcome → ℕ × ℕ × List CancelOutcome
tally none out = out
tally (some o) (canceled, requested, results) =
    if o.canceled
    then (canceled + 1, requested, results ++ o ∷ [])
    else if str_eq o.status "queued" || str_eq o.status "running"
    then (canceled, requested + 1, results ++ o ∷ [])
    else (canceled, requested, results ++ o ∷ [])

unfoldable pub cancel_each :
    (clock : String → ℕ)
    → List String
    → ℕ × ℕ × List CancelOutcome
    → JobManager
    → (ℕ × ℕ × List CancelOutcome) × JobManager
cancel_each clock [] out m = (out, m)
cancel_each clock (id ∷ ids) out m =
    let (o, m') = cancel (clock id) id m in cancel_each clock ids (tally o out) m'

-- `cancel_all`
unfoldable pub cancel_all : (clock : String → ℕ) → JobManager → CancelAll × JobManager
unfolding cancel_each stats
cancel_all clock m =
    let ids = map key m.jobs in
    let ((canceled, requested, results), m') = cancel_each clock ids (0, 0, []) m in
    (
      record {
        total_jobs = length ids;
        canceled_now = canceled;
        cancel_requested = requested;
        results = results;
        stats = stats m';
      },
      m',
    )
