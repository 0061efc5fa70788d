-- ===== src/Service/Tests.antt =====
-- A service whose shell fails, and the theorems at concrete inputs.
use nova_adapt.Base.{
  filter, ltb, ◌&&◌, ℕ, suc, ◌+◌, ◌*◌, ◌≤◌, String, true, false, ◌==◌, ◌≡◌, refl, ap, ◌∙◌, none,
  some, List, [], ◌∷◌, arith, any, length, Bool-cases, inl, inr,
}
use nova_adapt.Base.Json.{Value, Fields, str, null, field, end, get}
use nova_adapt.Base.Text.{strip}
use nova_adapt.Base.Lower.{lower}
use nova_adapt.Base.Find.{occurs_in, join, starts_with}
use nova_adapt.Plans.Policy.{evaluate, entry}
use nova_adapt.Base.Table
use nova_adapt.Base.Exec.{Result, ok, raised, runtime_error, value_error}
use nova_adapt.Plans.PlanStore
use nova_adapt.Plans.PlanStore.{PlanRecord, NewPlan, new_record}
use nova_adapt.Plans.UndoQueue
use nova_adapt.Plans.UndoQueue.{logged}
use nova_adapt.Plans.UndoQueue.Marked.{flag_if}
use nova_adapt.Service.Routing.{
  Executors, Routed, with_report, normal_click, normal_text, normal_hotkey, infer_action_domain,
  target, word, execute_routed_action, normalize_routed_action, send, send_action, Target, mobile,
  homeassistant, browser, directshell,
}
use nova_adapt.Service.Actions.{Outside, Service, ingest_control}
use nova_adapt.Service.Repair.{Models, is_bad, attempt_execution_self_heal}
use nova_adapt.Service.Admit.{Approval, run, admit, pick, retry_indexes}
use nova_adapt.Service.Approve.{Run, execute_actions, approve_plan}
use nova_adapt.Service.Undo.{undo_plan}
use nova_adapt.Service.Undo.Marks.{undo_plan_marks}
use nova_adapt.Service.Permitted.{only_permitted}
use nova_adapt.Service.Retries.{actions_run_bounded}
use nova_adapt.Service.Targets.{executor_of}
use nova_adapt.Service.Sends.{domain_agrees, asks, routed-sent, routed_once}
use nova_adapt.Service.Picks.{retry_picks, failed_ones}
use nova_adapt.Service.Lifecycle.{HasStatus, Is}
use nova_adapt.Service.Lifecycle.Refines.{◌⟶*◌}
use nova_adapt.Service.Lifecycle.Calls.{
  Call, approves, rejects, call_all, status_follows, executed_is_final,
}
use nova_adapt.Service.Lifecycle.Settles.{IsIdle, approve_settles, repair_raise_sticks, heal, loop}

abbrev plain : Value → String
plain v = elim v [ str s ↦ s | _ ↦ "" ]

abbrev bad_answer : Fields → Routed
bad_answer action = record { status = "failed"; output = "no"; action = action; «data» = none }

-- The world counts the runs of the shell.
abbrev failing_shell : Executors ℕ
failing_shell = record {
  to_text = plain;
  int_text = λ v. none;
  ground = λ goal action n. (raised (runtime_error "no screen"), n + 1);
  mobile = λ dry action n. (ok (bad_answer action), n + 1);
  homeassistant = λ dry action n. (ok (bad_answer action), n + 1);
  browser = λ action n. (ok (bad_answer action), n + 1);
  directshell = λ dry action n. (ok (bad_answer action), n + 1);
}

abbrev outside_world : Outside ℕ
outside_world = record {
  ex = failing_shell;
  depth = 10;
  now = λ n. n;
  now_seconds = λ n. n;
  cancel_requested = λ n. false;
  sleep = λ k n. n;
  remember = λ c n. n;
  error_text = λ e. "error";
}

-- Models that cannot be asked.
abbrev no_models : Models ℕ
no_models = record {
  propose = λ objective domain opts n. (raised (runtime_error "no model"), n);
  record_model_usage = λ objective p n. n;
  json_text = λ items. "[]";
}

abbrev click : Fields
click = field "type" (str "click") (field "target" (str "ok") end)

abbrev new_payload : NewPlan
new_payload = record {
  id = "p1";
  objective = "buy tea";
  strategy = none;
  model = null;
  model_id = null;
  actions = click ∷ [];
  votes = null;
  vote_summary = null;
  model_errors = null;
  attempted_models = null;
  collaboration = null;
  status = none;
  progress_completed = none;
  progress_total = none;
  repair = none;
}

abbrev a_plan : PlanRecord
a_plan = new_record 1 "x" new_payload

abbrev with_plan : PlanRecord → Service ℕ
with_plan p = record { plans = p ∷ []; queue = record { rows = []; last_id = 0 }; outer = 0 }

abbrev an_approval : Approval
an_approval = record {
  execute = true;
  max_actions = none;
  options = record { allow_dangerous = false; retries = 2; backoff = 1 };
  retry_failed_only = false;
  auto_repair_attempts = 0;
  repair_strategy = "decompose";
  repair_model = none;
  repair_candidates = [];
  repair_fallbacks = [];
}

found : PlanStore.get "p1" (with_plan a_plan).plans ≡ some a_plan
unfolding PlanStore.get Table.select
found = refl

-- The plan fails after three runs of its action, one of which is a first one.
approve_runs :
    (approve_plan outside_world no_models "p1" an_approval (with_plan a_plan)).1.outer ≡ 3
unfolding approve_plan execute_routed_action word PlanStore.get Table.select evaluate entry lower
    strip get occurs_in join PlanStore.fail_execution PlanStore.update_execution_progress
    PlanStore.mark_executing Table.update
approve_runs = refl

-- What came of two actions, of which the second has failed.
abbrev first_results : List Fields
first_results = field "status" (str "ok") end ∷ field "status" (str "Failed") end ∷ []

abbrev two_actions : List Fields
two_actions = click ∷ field "type" (str "note") end ∷ []

retry_picks_example :
    pick plain two_actions (retry_indexes plain 0 (length two_actions) first_results)
    ≡ failed_ones plain two_actions first_results
retry_picks_example = retry_picks plain two_actions first_results

-- The retry stores the result of the second action alone, so that a second retry runs the first.
second_retry :
    pick plain two_actions
      (retry_indexes plain 0 (length two_actions) (field "status" (str "failed") end ∷ []))
    ≡ click ∷ []
unfolding pick retry_indexes get lower strip
second_retry = refl

abbrev some_calls : List Call
some_calls =
    rejects "p2" none
    ∷ approves "p1" an_approval
    ∷ approves "p1" an_approval
    ∷ rejects "p1" none
    ∷ []

status_follows_example :
    HasStatus "p1"
      (λ later. a_plan.status ⟶* later)
      (call_all outside_world no_models some_calls (with_plan a_plan))
status_follows_example =
    status_follows outside_world no_models some_calls "p1" (with_plan a_plan) a_plan found

abbrev done_plan : PlanRecord
done_plan = record a_plan { status = "executed" }

done_found : PlanStore.get "p1" (with_plan done_plan).plans ≡ some done_plan
unfolding PlanStore.get Table.select
done_found = refl

executed_is_final_example :
    PlanStore.get "p1" (call_all outside_world no_models some_calls (with_plan done_plan)).plans
    ≡ some done_plan
executed_is_final_example =
    executed_is_final outside_world no_models some_calls "p1" (with_plan done_plan) done_plan
      done_found refl

approve_settles_example :
    HasStatus "p1" IsIdle
      (approve_plan outside_world no_models "p1" an_approval (with_plan a_plan)).1
approve_settles_example =
    approve_settles outside_world no_models "p1" an_approval (with_plan a_plan) a_plan refl found
      refl

abbrev running_plan : PlanRecord
running_plan = record a_plan { status = "executing" }

abbrev repairing : Approval
repairing = record an_approval { auto_repair_attempts = 1 }

admitted : admit plain repairing a_plan ≡ run (click ∷ [])
unfolding admit pick retry_indexes strip
admitted = refl

abbrev first_loop : (Result (Unit {0}) × Run) × Service ℕ
first_loop = loop outside_world no_models "p1" repairing a_plan (click ∷ []) (with_plan a_plan)

went_through : first_loop.0.0 ≡ ok tt
unfolding execute_actions execute_routed_action word evaluate entry lower strip get occurs_in join
went_through = refl

to_repair :
    (ltb 0 (length (filter (is_bad outside_world no_models) first_loop.0.1.results))
      && ltb 0 repairing.auto_repair_attempts)
    ≡ true
unfolding execute_actions execute_routed_action word evaluate entry lower strip get occurs_in join
    is_bad
to_repair = refl

cannot_ask :
    (heal outside_world no_models "p1" repairing a_plan (click ∷ []) (with_plan a_plan)).0
    ≡ raised (runtime_error "no model")
unfolding attempt_execution_self_heal execute_actions execute_routed_action word evaluate entry
    lower strip get occurs_in join
cannot_ask = refl

repair_raise_sticks_example :
    let (answer, s') = approve_plan outside_world no_models "p1" repairing (with_plan a_plan) in
    (answer ≡ raised (runtime_error "no model"))
    × HasStatus "p1" (Is "executing") s'
    × ((a' : Approval)
        → approve_plan outside_world no_models "p1" a' s'
          ≡ (raised (value_error "Plan is already executing"), s'))
repair_raise_sticks_example =
    repair_raise_sticks outside_world no_models "p1" repairing a_plan (click ∷ [])
      (with_plan a_plan) (runtime_error "no model") found admitted went_through to_repair cannot_ask

sent_once :
    (t : Target) (action_type platform_name : String) (action : Fields) (n : ℕ)
    → (send_action failing_shell t true action_type platform_name action n).1 ≡ n + 1
unfolding send_action
sent_once mobile action_type platform_name action n = refl
sent_once homeassistant action_type platform_name action n = refl
sent_once browser action_type platform_name action n = refl
sent_once directshell action_type platform_name action n = refl

-- Each call counts once.
counted :
    (action : Fields) (n : ℕ) → (execute_routed_action failing_shell 10 true action n).1 ≡ n + 1
unfolding execute_routed_action send
counted action n = elim (Bool-cases (asks failing_shell true action)) [
  | inl asked ↦ rw (asked, execute_routed_action) refl
  | inr other ↦
      let a = normalize_routed_action failing_shell action in
      ap (λ x. x.1) (routed-sent failing_shell true 9 action n other)
      ∙ sent_once _ (word plain "type" a) (word plain "platform" a) a n
]

abbrev no_run : Run
no_run = record { results = []; log_ids = [] }

actions_run_bounded_example :
    (execute_actions outside_world "p1" an_approval.options 2 1 two_actions no_run
      (with_plan running_plan)).1.outer
    ≤ 0 + 2 * (2 + 1)
actions_run_bounded_example =
    actions_run_bounded outside_world (λ n. n) counted (λ k n. refl) "p1" an_approval.options 2 1
      two_actions no_run (with_plan running_plan)

abbrev after_five : Service ℕ
after_five = record (with_plan a_plan) { outer = 5 }

-- No action, wait, question or record takes a run back.
only_permitted_example :
    5 ≤ (approve_plan outside_world no_models "p1" repairing after_five).1.outer
only_permitted_example =
    only_permitted outside_world no_models "p1" repairing (λ n. 5 ≤ n)
      (λ action allowed n h. ground (arith, counted action n)) (λ k n h. h) (λ c n h. h)
      (λ objective domain opts n h. h) (λ objective p n h. h) after_five (omega arith)

domain_agrees_example :
    execute_routed_action failing_shell (suc 9) true click 0
    ≡ send_action failing_shell
        (executor_of (infer_action_domain plain click))
        true
        (word plain "type" click)
        (word plain "platform" click)
        (normalize_routed_action failing_shell click)
        0
unfolding word get lower strip
domain_agrees_example = domain_agrees failing_shell true 9 click 0 refl

-- A vision model that finds where to click.
abbrev seeing_shell : Executors ℕ
seeing_shell = record failing_shell {
  ground = λ goal action n. (ok (record { action = click; report = str "seen" }), n + 1);
}

abbrev look : Fields
look = field "type" (str "vision_goal") end

-- The model is asked, and the shell is sent the answer.
looked : (routed_once seeing_shell true look 0).1 ≡ 2
unfolding routed_once send send_action target normalize_routed_action word get lower strip
    normal_click normal_text normal_hotkey with_report starts_with
looked = refl

abbrev logged_plan : PlanRecord
logged_plan = record a_plan { status = "failed"; action_log_ids = some (4 ∷ 5 ∷ []) }

abbrev with_log : Service ℕ
with_log = record (with_plan logged_plan) {
  queue = record {
    rows =
        logged 1 4 click "ok" none ∷ logged 1 5 click "ok" none ∷ logged 1 6 click "ok" none ∷ [];
    last_id = 6;
  };
}

logged_found : PlanStore.get "p1" with_log.plans ≡ some logged_plan
unfolding PlanStore.get Table.select
logged_found = refl

undo_plan_marks_example :
    let (answer, s') = undo_plan outside_world "p1" false true with_log in
    ((x : Fields) × (answer ≡ ok x)
      × (s'.outer
          ≡ outside_world.remember
              (ingest_control "plan_undo" x ("plan.undo" ∷ []))
              with_log.outer))
    × (s'.plans ≡ with_log.plans)
    × ((j : ℕ)
        → UndoQueue.get j s'.queue
          ≡ flag_if (any (λ i. i == j) (4 ∷ 5 ∷ [])) (UndoQueue.get j with_log.queue))
undo_plan_marks_example =
    undo_plan_marks outside_world false "p1" with_log logged_plan 4 (5 ∷ []) logged_found refl
