-- ===== src/Requests/Jobs/Events.antt =====
-- The operations of the job manager as events, in any order, by any thread.
use nova_adapt.Base.{ℕ, String, false, ◌≡◌, List, [], ◌∷◌, Option, str_eq}
use nova_adapt.Base.Json.{Fields}
use nova_adapt.Requests.Jobs.{
  JobManager, Outcome, submit, schedule, register, cancel, start_run, end_run,
}

pub data Event : Type 0 where
  submits : ℕ → String → Option Fields → Event
  schedules : String → Event
  registers : String → Event
  cancels : ℕ → String → Event
  starts : ℕ → String → Event
  ends : ℕ → String → Outcome → Event

abbrev pub apply : Event → JobManager → JobManager
apply (submits now id job_meta) m = submit now id job_meta m
apply (schedules id) m = schedule id m
apply (registers id) m = register id m
apply (cancels now id) m = (cancel now id m).1
apply (starts now id) m = start_run now id m
apply (ends now id outcome) m = end_run now id outcome m

abbrev pub apply_all : List Event → JobManager → JobManager
apply_all [] m = m
apply_all (ev ∷ evs) m = apply_all evs (apply ev m)

-- The event submits no other job under the identifier `id`, as identifiers are made up by `uuid4`.
abbrev pub IsFresh : String → Event → Type 0
IsFresh id (submits now j job_meta) = str_eq j id ≡ false
IsFresh id (schedules j) = str_eq j id ≡ false
IsFresh id (registers j) = Unit
IsFresh id (cancels now j) = Unit
IsFresh id (starts now j) = Unit
IsFresh id (ends now j outcome) = Unit

-- The job `id` is not ended by the event.
abbrev pub KeepsRunning : String → Event → Type 0
KeepsRunning id (submits now j job_meta) = str_eq j id ≡ false
KeepsRunning id (schedules j) = str_eq j id ≡ false
KeepsRunning id (registers j) = Unit
KeepsRunning id (cancels now j) = Unit
KeepsRunning id (starts now j) = Unit
KeepsRunning id (ends now j outcome) = str_eq j id ≡ false
