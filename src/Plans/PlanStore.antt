-- ===== src/Plans/PlanStore.antt =====
-- `PlanStore` of core/novaadapt_core/plan_store.py. A time is a number of microseconds. JSON text that
-- is written is read back as the same value.
pub mod Follows
pub mod Times
pub mod Laws
use nova_adapt.Base.{
  whole_seconds, ℕ, ◌+◌, String, Bool, true, false, ◌&&◌, ◌||◌, ◌==◌, Option, none, some, List, [],
  if◌then◌else◌, ltb, leb, str_eq, get_or, count, take, max, string_eq, length,
}
use nova_adapt.Base.Json.{Value, Fields}
use nova_adapt.Base.Text.{or_else}
use nova_adapt.Base.Exec.{Exec, Result, ok, raised, integrity_error}
use nova_adapt.Base.Table
use nova_adapt.Base.Table.Where.{delete_where}
use nova_adapt.Base.Order.{order_by}

-- A row of the table `plans`, as `_row_to_dict` reads it.
pub record PlanRecord : Type 0 where
  pub id : String
  pub objective : String
  pub strategy : String
  pub model : Value
  pub model_id : Value
  pub actions : List Fields
  pub votes : Value
  pub vote_summary : Value
  pub model_errors : Value
  pub attempted_models : Value
  pub collaboration : Value
  pub status : String
  pub created_at : ℕ
  pub updated_at : ℕ
  pub approved_at : Option ℕ
  pub rejected_at : Option ℕ
  pub executed_at : Option ℕ
  pub execution_started_at : Option ℕ
  pub reject_reason : Option String
  pub execution_results : Option (List Fields)
  pub action_log_ids : Option (List ℕ)
  pub progress_completed : ℕ
  pub progress_total : ℕ
  pub execution_error : Option String
  pub repair : Option Fields

-- The entries of the payload that `create` reads; one that has a default may be missing.
pub record NewPlan : Type 0 where
  pub id : String
  pub objective : String
  pub strategy : Option String
  pub model : Value
  pub model_id : Value
  pub actions : List Fields
  pub votes : Value
  pub vote_summary : Value
  pub model_errors : Value
  pub attempted_models : Value
  pub collaboration : Value
  pub status : Option String
  pub progress_completed : Option ℕ
  pub progress_total : Option ℕ
  pub repair : Option Fields

abbrev pub Plans : Type 0
Plans = List PlanRecord

abbrev pub key : PlanRecord → String
key p = p.id

abbrev pub new_record : ℕ → String → NewPlan → PlanRecord
new_record now fresh payload = record {
  id = or_else payload.id fresh;
  objective = payload.objective;
  strategy = get_or "single" payload.strategy;
  model = payload.model;
  model_id = payload.model_id;
  actions = payload.actions;
  votes = payload.votes;
  vote_summary = payload.vote_summary;
  model_errors = payload.model_errors;
  attempted_models = payload.attempted_models;
  collaboration = payload.collaboration;
  status = get_or "pending" payload.status;
  created_at = now;
  updated_at = now;
  approved_at = none;
  rejected_at = none;
  executed_at = none;
  execution_started_at = none;
  reject_reason = none;
  execution_results = none;
  action_log_ids = none;
  progress_completed = get_or 0 payload.progress_completed;
  progress_total = get_or (length payload.actions) payload.progress_total;
  execution_error = none;
  repair = payload.repair;
}

inserted : PlanRecord → Plans → Option Plans → Result PlanRecord × Plans
inserted r plans none = (raised integrity_error, plans)
inserted r plans (some plans') = (ok r, plans')

-- `create`; `fresh` is the identifier that `uuid4` makes up.
unfoldable pub create : ℕ → String → NewPlan → Exec Plans PlanRecord
unfolding inserted
create now fresh payload plans =
    let r = new_record now fresh payload in inserted r plans (Table.insert key r plans)

-- `get`
unfoldable pub get : String → Plans → Option PlanRecord
get plan_id plans = Table.select key plan_id plans

-- ORDER BY created_at DESC
abbrev pub newest_first : PlanRecord → PlanRecord → Bool
newest_first a b = leb b.created_at a.created_at

-- `list`
unfoldable pub list : ℕ → Plans → Plans
list limit plans = take (max 1 limit) (order_by newest_first plans)

-- COALESCE(a, b), with a `b` that is not NULL
abbrev pub coalesce : Option ℕ → ℕ → Option ℕ
coalesce none t = some t
coalesce (some s) t = some s

-- `v if v is not None else w`
abbrev pub given : {A : Type 0} → Option A → Option A → Option A
given none w = w
given (some v) w = some v

-- The shape of the methods below: a missing plan is left missing; one that is there is written and read
-- again.
unfoldable pub change :
    String → (PlanRecord → PlanRecord) → Plans → Option PlanRecord → Option PlanRecord × Plans
unfolding get
change plan_id f plans none = (none, plans)
change plan_id f plans (some current) =
    let plans' = Table.update key plan_id f plans in (get plan_id plans', plans')

abbrev pub executing : (now total_actions : ℕ) → PlanRecord → PlanRecord
executing now total_actions p = record p {
  status = "executing";
  updated_at = now;
  approved_at = coalesce p.approved_at now;
  execution_started_at = coalesce p.execution_started_at now;
  progress_completed = 0;
  progress_total = total_actions;
  execution_error = none;
}

-- `mark_executing`
unfoldable pub mark_executing : ℕ → String → ℕ → Plans → Option PlanRecord × Plans
unfolding change
mark_executing now plan_id total_actions plans =
    change plan_id (executing now total_actions) plans (get plan_id plans)

-- What the execution of a plan has come to.
pub record Progress : Type 0 where
  pub results : List Fields
  pub log_ids : List ℕ
  pub completed : ℕ
  pub total : ℕ

abbrev pub progressed : ℕ → Progress → PlanRecord → PlanRecord
progressed now g p = record p {
  updated_at = now;
  execution_results = some g.results;
  action_log_ids = some g.log_ids;
  progress_completed = g.completed;
  progress_total = g.total;
}

-- `update_execution_progress`
unfoldable pub update_execution_progress : ℕ → String → Progress → Plans → Option PlanRecord × Plans
unfolding change
update_execution_progress now plan_id g plans =
    change plan_id (progressed now g) plans (get plan_id plans)

-- The arguments of `fail_execution` and of `approve` that may be `None`.
pub record Report : Type 0 where
  pub results : Option (List Fields)
  pub log_ids : Option (List ℕ)
  pub completed : Option ℕ
  pub total : Option ℕ
  pub repair : Option Fields

abbrev pub failed : ℕ → String → Report → PlanRecord → PlanRecord
failed now error g p = record p {
  status = "failed";
  updated_at = now;
  executed_at = some now;
  execution_results = given g.results p.execution_results;
  action_log_ids = given g.log_ids p.action_log_ids;
  progress_completed = get_or p.progress_completed g.completed;
  progress_total = get_or p.progress_total g.total;
  execution_error = some error;
  repair = given g.repair p.repair;
}

-- `fail_execution`
unfoldable pub fail_execution : ℕ → String → String → Report → Plans → Option PlanRecord × Plans
unfolding change
fail_execution now plan_id error g plans =
    change plan_id (failed now error g) plans (get plan_id plans)

abbrev pub ran : ℕ → Option (List Fields) → Option ℕ → Option ℕ
ran now none old = old
ran now (some results) old = some now

abbrev pub approved : ℕ → String → Report → PlanRecord → PlanRecord
approved now status g p =
    let done = length (get_or [] g.results) in
    record p {
      status = status;
      updated_at = now;
      approved_at = coalesce p.approved_at now;
      executed_at = ran now g.results p.executed_at;
      execution_results = given g.results p.execution_results;
      action_log_ids = given g.log_ids p.action_log_ids;
      progress_completed = done;
      progress_total = max (length p.actions) done;
      execution_error = none;
      repair = given g.repair p.repair;
    }

-- `approve`; it has no use for `completed` and `total`.
unfoldable pub approve : ℕ → String → String → Report → Plans → Option PlanRecord × Plans
unfolding change
approve now plan_id status g plans =
    change plan_id (approved now status g) plans (get plan_id plans)

abbrev pub rejected : ℕ → Option String → PlanRecord → PlanRecord
rejected now reason p = record p {
  status = "rejected";
  updated_at = now;
  rejected_at = some now;
  reject_reason = reason;
  execution_error = none;
}

-- `reject`
unfoldable pub reject : ℕ → String → Option String → Plans → Option PlanRecord × Plans
unfolding change
reject now plan_id reason plans = change plan_id (rejected now reason) plans (get plan_id plans)

-- The WHERE clause of `prune_older_than`; the time to keep is in seconds.
abbrev pub is_closed : String → Bool
is_closed status =
    str_eq status "approved"
    || str_eq status "executed"
    || str_eq status "rejected"
    || str_eq status "failed"

abbrev pub is_old : (now retention : ℕ) → PlanRecord → Bool
is_old now retention p =
    is_closed p.status && ltb (whole_seconds p.updated_at + retention) (whole_seconds now)

-- `prune_older_than`
unfoldable pub prune_older_than : (now older_than : ℕ) → Plans → ℕ × Plans
prune_older_than now older_than plans =
    if older_than == 0
    then (0, plans)
    else (count (is_old now older_than) plans, delete_where (is_old now older_than) plans)
