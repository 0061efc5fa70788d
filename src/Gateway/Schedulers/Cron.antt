-- ===== src/Gateway/Schedulers/Cron.antt =====
-- `CronScheduler` of core/novaadapt_core/agent_gateway/scheduler/cron.py.
use nova_adapt.Base.{
  ℕ, ◌+◌, ◌*◌, second, String, Bool, ◌==◌, List, if◌then◌else◌, leb, max, filter, string_eq,
}
use nova_adapt.Base.Text.{strip, is_empty}
use nova_adapt.Base.Json.{Fields}
use nova_adapt.Base.Exec.{Exec, ok, raised, value_error}
use nova_adapt.Base.Table

pub record CronJob : Type 0 where
  pub name : String
  pub payload : Fields
  pub interval_seconds : ℕ
  pub next_run_at : ℕ

-- `self._jobs`, in the order of insertion
abbrev pub Jobs : Type 0
Jobs = List CronJob

abbrev pub job_key : CronJob → String
job_key j = j.name

abbrev pub new_job : ℕ → String → Fields → ℕ → CronJob
new_job now name payload interval_seconds = record {
  name = name;
  payload = payload;
  interval_seconds = max 1 interval_seconds;
  next_run_at = now;
}

-- `register`
unfoldable pub register : ℕ → String → Fields → ℕ → Exec Jobs (Unit {0})
register now name payload interval_seconds jobs =
    let normalized_name = strip name in
    if is_empty normalized_name
    then (raised (value_error "name is required"), jobs)
    else if interval_seconds == 0
    then (raised (value_error "interval_seconds must be > 0"), jobs)
    else (let j = new_job now normalized_name payload interval_seconds in
        (ok tt, Table.upsert job_key j (λ _. j) jobs))

abbrev pub is_due : ℕ → CronJob → Bool
is_due current j = leb j.next_run_at current

-- `due`
unfoldable pub due : ℕ → Jobs → List CronJob
due current jobs = filter (is_due current) jobs

-- `mark_ran`; a name that is not there is passed over.
unfoldable pub mark_ran : ℕ → String → Jobs → Jobs
mark_ran current name jobs =
    Table.update job_key (strip name)
      (λ j. record j { next_run_at = current + j.interval_seconds * second }) jobs
