-- ===== src/Service/Approve.antt =====
-- `approve_plan`, `reject_plan`, `get_plan` and `list_plans` of core/novaadapt_core/service.py.
-- A call of a method is one step of the service: what other threads do to the same plan while it runs is
-- not modelled, but for `cancel_requested`.
use Prim.Native.String
use nova_adapt.Base.{
  ℕ, ◌+◌, String, Bool, true, false, ◌&&◌, Option, none, some, List, [], ◌∷◌, ◌++◌, str_eq, ltb,
  max, length, get_or, filter,
}
use nova_adapt.Base.Decimal.{show}
use nova_adapt.Base.Json.{Fields, str, field, end}
use nova_adapt.Base.Exec.{Exec, Result, ok, raised, Error, value_error, ◌>>=◌, ◌>>◌, pure, raise}
use nova_adapt.Plans.PlanStore
use nova_adapt.Plans.PlanStore.{Plans, PlanRecord, Report, Progress}
use nova_adapt.Service.Actions.{
  Outside, Service, Options, MemoryCall, persist_plan, finalize, ingest_control, perform,
  check_cancel,
}
use nova_adapt.Service.Repair.{
  Models, RepairOptions, Healing, summary_json, attempt_execution_self_heal, is_bad,
}
use nova_adapt.Service.Admit.{Approval, Verdict, refuse, nothing, approve_only, run, admit}

-- `execution_results` and `action_log_ids` as the loop has them.
pub record Run : Type 0 where
  pub results : List Fields
  pub log_ids : List ℕ

abbrev pub with_entry : Run → Fields × ℕ → Run
with_entry r (entry, id) = record {
  results = r.results ++ entry ∷ [];
  log_ids = r.log_ids ++ id ∷ [];
}

module _ {W : Type 0} (o : Outside W) where
  abbrev pub remember : MemoryCall → Service W → Service W
  remember call s = record s { outer = o.remember call s.outer }

  -- `update_execution_progress`, after `idx` of `total` actions
  unfoldable pub save_progress : String → (total idx : ℕ) → Run → Service W → Service W
  save_progress plan_id total idx r s = record s {
    plans =
        (PlanStore.update_execution_progress (o.now s.outer) plan_id
          (record { results = r.results; log_ids = r.log_ids; completed = idx; total = total })
          s.plans).1;
  }

  -- The loop over the actions, the first of which is number `idx`: how it ended, and how far it came.
  unfoldable pub execute_actions :
      String
      → Options
      → (total idx : ℕ) → List Fields
      → Run
      → Service W
      → (Result (Unit {0}) × Run) × Service W
  unfolding perform save_progress
  execute_actions plan_id opts total idx [] r s = ((ok tt, r), s)
  execute_actions plan_id opts total idx (action ∷ actions) r s =
      let (done, s') = (check_cancel o >> perform o opts action) s in
      elim done [
        | raised e ↦ ((raised e, r), s')
        | ok one ↦
            let r' = with_entry r one in
            execute_actions plan_id opts total (idx + 1) actions r'
              (save_progress plan_id total idx r' s')
      ]

  unfoldable pub remember_all : List MemoryCall → Service W → Service W
  remember_all [] s = s
  remember_all (call ∷ calls) s = remember_all calls (remember call s)

  -- A plan that was written and read again is returned, after the calls of the memory backend; one that
  -- is gone is an error.
  unfoldable pub written :
      (PlanRecord → List MemoryCall) → Option PlanRecord × Plans → Exec (Service W) PlanRecord
  unfolding remember_all
  written calls (none, plans) s =
      (raised (value_error "Plan not found"), record s { plans = plans })
  written calls (some p, plans) s = (ok p, remember_all (calls p) (record s { plans = plans }))

  abbrev pub no_report : Report
  no_report = record {
    results = none;
    log_ids = none;
    completed = none;
    total = none;
    repair = none;
  }

  abbrev pub run_report : (total : ℕ) → Run → Option Healing → Report
  run_report total r h = record {
    results = some r.results;
    log_ids = some r.log_ids;
    completed = some (length r.results);
    total = some total;
    repair = elim h [ none ↦ none | some x ↦ some (summary_json x) ];
  }

  abbrev pub session : String → String
  session plan_id = String.◌++◌ "plan:" plan_id

  abbrev was_tried : Option Healing → Bool
  was_tried none = false
  was_tried (some h) = ltb 0 (length h.attempts)

  module _ (models : Models W) (plan_id : String) (p : PlanRecord) (actions : List Fields) where
    -- The `except` branch: the error is written down, and raised again.
    unfoldable pub abort : Error → Run → Exec (Service W) PlanRecord
    unfolding remember_all
    abort e r s =
        let text = o.error_text e in
        let (_, plans) =
          PlanStore.fail_execution (o.now s.outer) plan_id text (run_report (length actions) r none)
            s.plans in
        (
          raised e,
          remember_all (persist_plan plan_id p.objective "failed" actions r.results text ∷ [])
              (record s { plans = plans }),
        )

    abbrev pub failed_calls : Run → Option Healing → PlanRecord → List MemoryCall
    failed_calls r h q =
        persist_plan plan_id p.objective "failed" actions r.results (get_or "" q.execution_error)
        ∷ finalize ("plan.failed" ∷ "plan.failed_actions" ∷ []) (session plan_id) true (was_tried h)
        ∷ []

    -- Some of the actions failed or were blocked.
    unfoldable pub end_failed : List Fields → Run → Option Healing → Exec (Service W) PlanRecord
    unfolding written
    end_failed bad r h s =
        let error = String.◌++◌ (show (length bad)) " actions failed or were blocked" in
        written (failed_calls r h)
          (PlanStore.fail_execution (o.now s.outer) plan_id error (run_report (length actions) r h)
            s.plans)
          s

    abbrev pub executed_calls : List String → Bool → Run → PlanRecord → List MemoryCall
    executed_calls event_names dream r q =
        persist_plan plan_id p.objective "executed" actions r.results ""
        ∷ finalize event_names (session plan_id) true dream
        ∷ []

    unfoldable pub end_executed :
        (event_names : List String) (dream : Bool)
        → Run
        → Option Healing
        → Exec (Service W) PlanRecord
    unfolding written
    end_executed event_names dream r h s =
        written (executed_calls event_names dream r)
          (PlanStore.approve (o.now s.outer) plan_id "executed" (run_report (length actions) r h)
            s.plans)
          s

    -- The end of `approve_plan`, without a repair or after one.
    unfoldable pub end_run : List Fields → Run → Option Healing → Exec (Service W) PlanRecord
    unfolding end_failed end_executed
    end_run [] r none = end_executed ("plan.executed" ∷ []) false r none
    end_run [] r (some h) = elim h.healed [
      | true ↦ end_executed ("plan.executed" ∷ "plan.auto_repaired" ∷ []) true r (some h)
      | false ↦ end_executed ("plan.executed" ∷ []) false r (some h)
    ]
    end_run (b ∷ bad) r h = end_failed (b ∷ bad) r h

    abbrev pub repair_options : Approval → RepairOptions
    repair_options a = record {
      objective = p.objective;
      allow_dangerous = a.options.allow_dangerous;
      max_actions = get_or (max 1 (length p.actions)) a.max_actions;
      attempts = a.auto_repair_attempts;
      strategy = a.repair_strategy;
      model = a.repair_model;
      candidates = a.repair_candidates;
      fallbacks = a.repair_fallbacks;
    }

    -- After a repair, whose error goes past the `except` branch above.
    unfoldable pub repair_run : Approval → Run → Exec (Service W) PlanRecord
    unfolding end_run attempt_execution_self_heal is_bad
    repair_run a r = do
      h ← attempt_execution_self_heal o models (repair_options a) actions r.results r.log_ids
      let r' : Run = record { results = h.results; log_ids = h.log_ids }
      end_run (filter (is_bad o models) h.results) r' (some h)

    -- After the loop over the actions.
    unfoldable pub conclude : Approval → Run → Exec (Service W) PlanRecord
    unfolding repair_run end_run is_bad
    conclude a r =
        let bad = filter (is_bad o models) r.results in
        elim (ltb 0 (length bad) && ltb 0 a.auto_repair_attempts) [
          | true ↦ repair_run a r
          | false ↦ end_run bad r none
        ]

    -- From `mark_executing` on.
    unfoldable pub run_plan : Approval → Exec (Service W) PlanRecord
    unfolding execute_actions abort conclude
    run_plan a s =
        let (_, plans) =
          PlanStore.mark_executing (o.now s.outer) plan_id (length actions) s.plans in
        let start : Run = record { results = []; log_ids = get_or [] p.action_log_ids } in
        let ((outcome, r), s') =
          execute_actions plan_id a.options (length actions) 1 actions start
            (record s { plans = plans }) in
        elim outcome [ raised e ↦ abort e r s' | ok _ ↦ conclude a r s' ]

  module _ (models : Models W) where
    abbrev pub follow : String → Approval → PlanRecord → Verdict → Exec (Service W) PlanRecord
    follow plan_id a p (refuse text) = raise (value_error text)
    follow plan_id a p nothing = pure p
    follow plan_id a p approve_only = λ s.
        written (λ _. []) (PlanStore.approve (o.now s.outer) plan_id "approved" no_report s.plans) s
    follow plan_id a p (run actions) = run_plan models plan_id p actions a

    -- `approve_plan`
    unfoldable pub approve_plan : String → Approval → Exec (Service W) PlanRecord
    unfolding admit run_plan written
    approve_plan plan_id a s = elim (PlanStore.get plan_id s.plans) [
      | none ↦ (raised (value_error "Plan not found"), s)
      | some p ↦ follow plan_id a p (admit o.ex.to_text a p) s
    ]

  abbrev pub reject_payload : String → Option String → Fields
  reject_payload plan_id reason =
      field "plan_id" (str plan_id)
        (field "reason" (str (get_or "" reason)) (field "status" (str "rejected") end))

  abbrev pub reject_calls : String → Option String → PlanRecord → List MemoryCall
  reject_calls plan_id reason q =
      ingest_control "plan_reject" (reject_payload plan_id reason) ("plan.reject" ∷ []) ∷ []

  -- The end of `reject_plan`.
  unfoldable pub reject_found : String → Option String → Exec (Service W) PlanRecord
  unfolding written
  reject_found plan_id reason s =
      written (reject_calls plan_id reason)
        (PlanStore.reject (o.now s.outer) plan_id reason s.plans) s

  -- `reject_plan`
  unfoldable pub reject_plan : String → Option String → Exec (Service W) PlanRecord
  unfolding reject_found
  reject_plan plan_id reason s = elim (PlanStore.get plan_id s.plans) [
    | none ↦ (raised (value_error "Plan not found"), s)
    | some p ↦ elim (str_eq p.status "executed") [
      | true ↦ (raised (value_error "Plan already executed"), s)
      | false ↦ reject_found plan_id reason s
    ]
  ]

-- `get_plan`
unfoldable pub get_plan : {W : Type 0} → String → Service W → Option PlanRecord
get_plan plan_id s = PlanStore.get plan_id s.plans

-- `list_plans`
unfoldable pub list_plans : {W : Type 0} → ℕ → Service W → List PlanRecord
list_plans limit s = PlanStore.list (max 1 limit) s.plans
