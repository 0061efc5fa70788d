-- ===== src/Runtime/Tests.antt =====
-- A governance with a limit, and the theorems at concrete inputs.
use nova_adapt.Base.Order.{order_by}
use nova_adapt.Base.Table
use nova_adapt.Base.{
  leb→le, String, ◌≤◌, map, count, filter, true, false, ◌≡◌, refl, some, none, List, [], ◌∷◌, arith,
  string_eq,
}
use nova_adapt.Runtime.Governance.{
  ModelUsage, Governance, make_governance, initial_state, calls_of, cost_of, record_model_usage,
  update, try_enter, blocking_reason, leave,
}
use nova_adapt.Runtime.Governance.Balance.{
  Event, updates, records, enters, leaves, apply_all, totals_balance,
}
use nova_adapt.Runtime.Governance.Limit.{runs_limited}
use nova_adapt.Runtime.AuditStore.{
  NewEvent, Filters, Event as AuditEvent, cleanup_expired, append_once, get, read_back, append,
  matches, list, watch, make_store,
}
use nova_adapt.Runtime.AuditStore.Watch.{
  Call, appends, prunes, apply_all as after_calls, watch_complete,
}

abbrev used : List ModelUsage
used =
    record { model_name = "a"; calls = 2; cost = 30; model_id = "" }
    ∷ record { model_name = "b"; calls = 1; cost = 5; model_id = "b-1" }
    ∷ []

abbrev some_events : List Event
some_events =
    records (λ s. s) 3 "single" "buy tea" used
    ∷ enters
    ∷ records (λ s. s) 4 "vote" "" used
    ∷ leaves
    ∷ updates 5 (record {
      paused = some true;
      pause_reason = some " stop ";
      budget_limit = some (some 100);
      max_active_runs = none;
    })
    ∷ enters
    ∷ []

totals_balance_example :
    let st = (apply_all some_events (make_governance true 1)).state in
    (st.llm_calls_total ≡ calls_of st.per_model) × (st.spend_estimate ≡ cost_of st.per_model)
totals_balance_example = totals_balance some_events true 1

-- Six calls, and 70 millionths of a dollar.
spent : (apply_all some_events (make_governance true 1)).state.spend_estimate ≡ 70
unfolding record_model_usage update try_enter blocking_reason leave
spent = refl

abbrev limited : Governance
limited = record (make_governance false 1) {
  state = record (initial_state 1) { max_active_runs = some 2 };
}

runs_limited_example :
    (apply_all (enters ∷ enters ∷ enters ∷ leaves ∷ enters ∷ []) limited).active_runs ≤ 2
runs_limited_example =
    runs_limited 2 (enters ∷ enters ∷ enters ∷ leaves ∷ enters ∷ []) limited (omega arith)
      (tt, (tt, (tt, (tt, (tt, tt))))) refl (omega arith)

abbrev event_of : String → NewEvent
event_of category = record {
  category = category;
  action = "created";
  status = "ok";
  request_id = none;
  entity_type = some "plan";
  entity_id = none;
  payload = none;
}

-- The first event expires before the last one is written.
abbrev some_calls : List Call
some_calls =
    appends (record { wall = 1; monotonic = 1 }) (event_of "jobs")
    ∷ appends (record { wall = 50; monotonic = 50 }) (event_of "plans")
    ∷ prunes (record { wall = 60; monotonic = 60 })
    ∷ appends (record { wall = 70; monotonic = 70 }) (event_of "jobs")
    ∷ appends (record { wall = 75; monotonic = 75 }) (event_of "jobs")
    ∷ []

abbrev jobs_only : Filters
jobs_only = record { category = "jobs"; entity_type = "plan"; entity_id = ""; since_id = some 1 }

watch_complete_example :
    watch 2 jobs_only (after_calls some_calls (make_store 30 5))
    ≡ filter (matches jobs_only) (after_calls some_calls (make_store 30 5)).rows
unfolding cleanup_expired append_once append matches get read_back Table.select
watch_complete_example =
    watch_complete some_calls 30 5 2 jobs_only
      (leb→le (count (matches jobs_only) (after_calls some_calls (make_store 30 5)).rows) 2 refl)

seen_ids :
    map (λ (e : AuditEvent). e.id) (watch 2 jobs_only (after_calls some_calls (make_store 30 5)))
    ≡ 3 ∷ 4 ∷ []
unfolding cleanup_expired append_once append matches get read_back list watch order_by Table.select
seen_ids = refl
