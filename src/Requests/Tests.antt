-- ===== src/Requests/Tests.antt =====
-- One request, one job, and the theorems at concrete inputs.
use nova_adapt.Base.{
  ℕ, ◌+◌, subst, String, Bool, true, false, ◌≡◌, refl, none, some, List, [], ◌∷◌, arith,
}
use nova_adapt.Base.Json.{Fields, end, null, num}
use nova_adapt.Base.Text.{strip}
use nova_adapt.Base.Table
use nova_adapt.Base.Order.{order_by}
use nova_adapt.Base.Exec.{ok, raised, runtime_error}
use nova_adapt.Requests.Idempotency.{
  Clock, Key, IdempotencyStore, new, conflict, replay, begin, complete, cleanup_expired,
}
use nova_adapt.Requests.Idempotency.Keeps
use nova_adapt.Requests.Idempotency.Keeps.{apply_all as store_after, begins, prunes}
use nova_adapt.Requests.Idempotency.Once.{begin_excludes, begin_replays}
use nova_adapt.Requests.Execute.{Operation, execute_idempotent}
use nova_adapt.Requests.Execute.Replay.{Request, TakesPart, send, execute_once, execute_retry}
use nova_adapt.Requests.JobStore
use nova_adapt.Requests.JobStore.{JobRecord, Rows}
use nova_adapt.Requests.Jobs.{
  JobManager, FutureEntry, pending, working, job, future, queued_record, running_record,
  canceled_record, ended_record, cancel, end_run, start_run, submit, schedule, returned,
  failed_with, make_manager,
}
use nova_adapt.Requests.Jobs.Events.{Event, starts, ends, cancels, submits, schedules, apply_all}
use nova_adapt.Requests.Jobs.Final.{cancel_pending, end_is_final}
use nova_adapt.Requests.Jobs.Cancel.{cancel_running}
use nova_adapt.Requests.Jobs.Mirror.{here, step, store_mirrors}

abbrev at : ℕ → Clock
at t = record { wall = t; monotonic = t }

abbrev empty_store : IdempotencyStore
empty_store = record { retention = 100; cleanup_interval = 10; last_cleanup = 0; rows = [] }

abbrev run_key : Key
run_key = ("k1", ("POST", "/run"))

abbrev others : List Keeps.Event
others = begins (at 20) ("k2", ("POST", "/run")) "h2" ∷ prunes (at 40) ∷ []

begun : (begin (at 5) run_key "h1" empty_store).0 ≡ new
unfolding begin cleanup_expired Table.select
begun = refl

begin_excludes_example :
    (begin (at 50) run_key "h9" (store_after others (begin (at 5) run_key "h1" empty_store).1)).0
    ≡ conflict
begin_excludes_example =
    begin_excludes (at 5) run_key "h1" empty_store begun others (at 50) "h9"
      (omega arith, (omega arith, tt)) (omega arith)

begin_replays_example :
    (begin (at 60) run_key "h1" (
      store_after others
        (complete 8 run_key 201 null (store_after [] (begin (at 5) run_key "h1" empty_store).1)))).0
    ≡ replay 201 null
begin_replays_example =
    begin_replays (at 5) run_key "h1" empty_store begun [] others 8 201 null (at 60) "h1" tt
      (omega arith, (omega arith, tt)) (omega arith) (omega arith)

abbrev run_request : Request
run_request = record { header = " k1 "; path = "/run"; payload = end; key = "k1" }

abbrev one_hash : Fields → String
one_hash d = "h1"

abbrev every_route : String → Bool
every_route path = true

run_request-TakesPart : TakesPart every_route run_request
unfolding strip
run_request-TakesPart = record { keyed = refl; routed = refl }

-- The server's state is how often the operation ran.
abbrev count_up : Operation ℕ
count_up n = (ok (201, num n), n + 1)

abbrev fail_once : Operation ℕ
fail_once n = (raised (runtime_error "boom"), n)

execute_once_example :
    let (response, srv) =
      send one_hash every_route (at 5) 8 run_request count_up (some empty_store, 0) in
    let (response', srv') = send one_hash every_route (at 60) 61 run_request count_up (
      some (
          store_after others
            (complete 8 run_key 201 (num 0) (begin (at 5) run_key "h1" empty_store).1)),
      1,
    ) in
    (response ≡ ok (201, num 0, false))
    × (srv.1 ≡ 1)
    × (response' ≡ ok (201, num 0, true))
    × (srv'.1 ≡ 1)
unfolding execute_idempotent begin cleanup_expired strip Table.select
execute_once_example =
    execute_once one_hash every_route run_request run_request-TakesPart (at 5) 8 empty_store 0
      count_up 1 201 (num 0) (omega arith) begun refl others (at 60) 61 count_up 1
      (omega arith, (omega arith, tt)) (omega arith)

execute_retry_example :
    let (response, srv) =
      send one_hash every_route (at 5) 8 run_request fail_once (some empty_store, 0) in
    let (response', srv') = send one_hash every_route (at 9) 10 run_request count_up srv in
    (response ≡ raised (runtime_error "boom"))
    × (srv.1 ≡ 0)
    × (response' ≡ ok (201, num 0, false))
    × (srv'.1 ≡ 1)
execute_retry_example =
    execute_retry one_hash every_route run_request run_request-TakesPart (at 5) 8 empty_store 0
      fail_once 0 (runtime_error "boom") begun refl (at 9) 10 count_up 201 (num 0) 1 refl

abbrev a_job : JobRecord
a_job = queued_record 1 "j1" none

abbrev waiting_manager : JobManager
waiting_manager = record {
  max_workers = 1;
  jobs = a_job ∷ [];
  futures = record { job_id = "j1"; state = pending; registered = true } ∷ [];
  store = none;
}

abbrev waiting_future : FutureEntry
waiting_future = record { job_id = "j1"; state = pending; registered = true }

waiting-job : job "j1" waiting_manager ≡ some a_job
unfolding Table.select
waiting-job = refl

waiting-future : future "j1" waiting_manager ≡ some waiting_future
unfolding Table.select
waiting-future = refl

abbrev late_calls : List Event
late_calls = starts 3 "j1" ∷ ends 4 "j1" (returned end) ∷ []

cancel_pending_example :
    job "j1" (apply_all late_calls (cancel 2 "j1" waiting_manager).1)
    ≡ some (canceled_record 2 a_job)
cancel_pending_example =
    cancel_pending "j1" 2 a_job waiting_manager waiting-job waiting_future waiting-future late_calls
      refl refl refl (tt, (tt, tt))

abbrev busy_job : JobRecord
busy_job = running_record 2 a_job

abbrev busy_future : FutureEntry
busy_future = record { job_id = "j1"; state = working; registered = true }

abbrev busy_manager : JobManager
busy_manager = record waiting_manager { jobs = busy_job ∷ []; futures = busy_future ∷ [] }

busy-job : job "j1" busy_manager ≡ some busy_job
unfolding Table.select
busy-job = refl

busy-future : future "j1" busy_manager ≡ some busy_future
unfolding Table.select
busy-future = refl

abbrev late_cancel : List Event
late_cancel = cancels 5 "j1" ∷ starts 6 "j1" ∷ []

end_is_final_example :
    job "j1" (apply_all late_cancel (end_run 4 "j1" (failed_with "boom") busy_manager))
    ≡ some (ended_record 4 (failed_with "boom") busy_job)
end_is_final_example =
    end_is_final "j1" 4 busy_job busy_manager busy-job busy_future busy-future (failed_with "boom")
      late_cancel refl (tt, (tt, tt))

cancel_running_example :
    (r : JobRecord) × (job "j1"
        (end_run 9 "j1" (returned end) (apply_all late_cancel (cancel 3 "j1" busy_manager).1))
      ≡ some r)
    × (r.status ≡ "canceled")
cancel_running_example =
    cancel_running "j1" 3 9 busy_manager busy_job busy_future late_cancel (returned end) busy-job
      busy-future refl refl (tt, (tt, tt))

abbrev stored_manager : JobManager
stored_manager = make_manager 2 (some [])

empty-lacks : (rows : Rows) → some [] ≡ some rows → JobStore.get_row "j1" rows ≡ none
unfolding JobStore.get_row Table.select
empty-lacks rows has =
    let same : [] ≡ rows = ground arith in subst (λ x. JobStore.get_row "j1" x ≡ none) same refl

abbrev asked_job : JobRecord
asked_job = record (running_record 3 (queued_record 2 "j1" none)) { cancel_requested = true }

abbrev last_manager : JobManager
last_manager =
    (cancel 4 "j1" (start_run 3 "j1" (schedule "j1" (submit 2 "j1" none stored_manager)))).1

store_mirrors_example : JobStore.get_row "j1" (asked_job ∷ []) ≡ some asked_job
unfolding make_manager submit schedule start_run cancel Table.select Table.upsert Table.update
    JobStore.upsert JobStore.list order_by
store_mirrors_example =
    store_mirrors 2 [] last_manager "j1" asked_job (asked_job ∷ []) tt
      (step (submits 2 "j1" none) empty-lacks
        (step (schedules "j1") tt (step (starts 3 "j1") tt (step (cancels 4 "j1") tt here))))
      refl refl
