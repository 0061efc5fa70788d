-- ===== src/Service/Lifecycle.antt =====
-- The statuses of a plan, and how `approve_plan` leaves one.
pub mod Refines
pub mod Calls
pub mod Settles
use nova_adapt.Base.{
  ℕ, ◌<◌, String, Bool, true, false, ◌&&◌, ◌≡◌, refl, ◌∙◌, ap, Option, none, some, List, [], ◌∷◌,
  arith, length, filter, get_or, ltb, Bool-cases, Option-cases, inl, inr,
}
use Prim.Native.String
use nova_adapt.Base.Decimal.{show}
use nova_adapt.Base.Json.{Fields}
use nova_adapt.Base.Exec.Preserves.{after-bind}
use nova_adapt.Base.Exec.{Exec, Result, ok, raised, Error, Result-cases, ◌>>=◌, pure}
use nova_adapt.Plans.PlanStore
use nova_adapt.Plans.PlanStore.{
  PlanRecord, Plans, Report, executing, progressed, failed, approved, change,
}
use nova_adapt.Plans.PlanStore.Laws.{KeepsId, get-changed}
use nova_adapt.Service.Actions.{Outside, Service, MemoryCall, persist_plan, log_action}
use nova_adapt.Service.Repair.{Models, RepairOptions, Healing, is_bad, attempt_execution_self_heal}
use nova_adapt.Service.Admit.{Approval, Verdict, admit}
use nova_adapt.Service.Approve.{
  Run, execute_actions, remember_all, written, abort, end_run, end_failed, end_executed, repair_run,
  conclude, run_plan, repair_options, run_report, failed_calls, executed_calls,
}
use nova_adapt.Service.Closed.{Closed}
use nova_adapt.Service.Closed.Repairs.{Preserves-heal}
use nova_adapt.Service.Closed.Runs.{kept-execute_actions}

-- The plan is stored, with a status of which `P` holds.
abbrev pub HasStatus {κ} : {W : Type 0} → String → (String → Type κ) → Service W → Type κ
HasStatus plan_id P s = (q : PlanRecord) × (PlanStore.get plan_id s.plans ≡ some q) × P q.status

abbrev pub Is : String → String → Type 0
Is expected status = status ≡ expected

-- How a run leaves the status: only a repair may leave it at "executing".
pub data Finished (a : Approval) (status : String) : Type 0 where
  ran_well : status ≡ "executed" → Finished a status
  ran_badly : status ≡ "failed" → Finished a status
  stuck : ltb 0 a.auto_repair_attempts ≡ true → status ≡ "executing" → Finished a status

module _ {W : Type 0} (o : Outside W) where
  plans-remember_all :
      (calls : List MemoryCall) (s : Service W) → (remember_all o calls s).plans ≡ s.plans
  unfolding remember_all
  plans-remember_all [] s = refl
  plans-remember_all (call ∷ calls) s = plans-remember_all calls _

  pub plans-written :
      (calls : PlanRecord → List MemoryCall) (x : Option PlanRecord × Plans) (s : Service W)
      → (written o calls x s).1.plans ≡ x.1
  unfolding written
  plans-written calls (none, plans) s = refl
  plans-written calls (some p, plans) s = plans-remember_all (calls p) _

module _ {W : Type 0} (plan_id : String) where
  -- A change of a stored plan gives it the status that the change writes.
  pub HasStatus-change :
      (f : PlanRecord → PlanRecord) (status : String) (s : Service W) (plans : Plans)
      → KeepsId f
      → ((q : PlanRecord) → (f q).status ≡ status)
      → HasStatus plan_id (λ _. Unit {0}) s
      → plans ≡ (change plan_id f s.plans (PlanStore.get plan_id s.plans)).1
      → (q : PlanRecord) × (PlanStore.get plan_id plans ≡ some q) × Is status q.status
  HasStatus-change f status s plans keep sets (q, there, _) e =
      (f q, ap (PlanStore.get plan_id) e ∙ get-changed plan_id f s.plans q keep there, sets q)

module _ {W : Type 0} (o : Outside W) (models : Models W) (plan_id : String) (a : Approval) where
  abbrev Stored : Service W → Type 0
  Stored = HasStatus plan_id (λ _. Unit)

  abbrev pub Running : Service W → Type 0
  Running = HasStatus plan_id (Is "executing")

  abbrev pub Ended : Service W → Type 0
  Ended = HasStatus plan_id (Finished a)

  Running-Stored : (s : Service W) → Running s → Stored s
  Running-Stored s (q, there, st) = (q, there, tt)

  -- Up to its end a run leaves the status alone.
  pub Running-Closed : Closed o models plan_id a.options.allow_dangerous Running
  unfolding log_action
  Running-Closed = record {
    execute = λ action allowed s h. h;
    sleep = λ n s h. h;
    remember = λ c s h. h;
    propose = λ objective domain opts s h. h;
    usage = λ objective p s h. h;
    log = λ action status u s h. h;
    progress = λ now g s (q, there, st). (
      progressed now g q,
      get-changed plan_id (progressed now g) s.plans q (λ _. refl) there,
      st,
    );
  }

  module _ (p : PlanRecord) (actions : List Fields) where
    Ended-abort :
        (e : Error) (r : Run) (s : Service W)
        → Running s
        → Ended (abort o models plan_id p actions e r s).1
    unfolding abort PlanStore.fail_execution
    Ended-abort e r s h =
        let f = failed (o.now s.outer) (o.error_text e) (run_report o (length actions) r none) in
        let calls =
          persist_plan plan_id p.objective "failed" actions r.results (o.error_text e) ∷ [] in
        let s1 : Service W = record s {
          plans = (change plan_id f s.plans (PlanStore.get plan_id s.plans)).1;
        } in
        let (q, there, st) =
          HasStatus-change plan_id f "failed" s (abort o models plan_id p actions e r s).1.plans
            (λ _. refl) (λ _. refl) (Running-Stored s h) (plans-remember_all o calls s1) in
        (q, there, ran_badly st)

    Ended-end_failed :
        (bad : List Fields) (r : Run) (h : Option Healing) (s : Service W)
        → Running s
        → Ended (end_failed o models plan_id p actions bad r h s).1
    unfolding end_failed PlanStore.fail_execution
    Ended-end_failed bad r h s k =
        let error = String.◌++◌ (show (length bad)) " actions failed or were blocked" in
        let (q, there, st) =
          HasStatus-change plan_id
            (failed (o.now s.outer) error (run_report o (length actions) r h)) "failed" s
            (end_failed o models plan_id p actions bad r h s).1.plans (λ _. refl) (λ _. refl)
            (Running-Stored s k)
            (plans-written o (failed_calls o models plan_id p actions r h) _ s) in
        (q, there, ran_badly st)

    Ended-end_executed :
        (event_names : List String) (dream : Bool) (r : Run) (h : Option Healing) (s : Service W)
        → Running s
        → Ended (end_executed o models plan_id p actions event_names dream r h s).1
    unfolding end_executed PlanStore.approve
    Ended-end_executed event_names dream r h s k =
        let (q, there, st) =
          HasStatus-change plan_id
            (approved (o.now s.outer) "executed" (run_report o (length actions) r h)) "executed" s
            (end_executed o models plan_id p actions event_names dream r h s).1.plans (λ _. refl)
            (λ _. refl) (Running-Stored s k)
            (plans-written o (executed_calls o models plan_id p actions event_names dream r) _ s) in
        (q, there, ran_well st)

    Ended-end_run :
        (bad : List Fields) (r : Run) (h : Option Healing) (s : Service W)
        → Running s
        → Ended (end_run o models plan_id p actions bad r h s).1
    unfolding end_run
    Ended-end_run [] r none s k = Ended-end_executed ("plan.executed" ∷ []) false r none s k
    Ended-end_run [] r (some h) s k = elim (Bool-cases h.healed) [
      | inl good ↦
          rw (good, end_run)
            (Ended-end_executed ("plan.executed" ∷ "plan.auto_repaired" ∷ []) true r (some h) s k)
      | inr other ↦
          rw (other, end_run) (Ended-end_executed ("plan.executed" ∷ []) false r (some h) s k)
    ]
    Ended-end_run (b ∷ bad) r h s k = Ended-end_failed (b ∷ bad) r h s k

    -- A repair that raises leaves the plan as it was; one that returns ends the run.
    Ended-repair_run :
        (r : Run) (s : Service W)
        → ltb 0 a.auto_repair_attempts ≡ true
        → Running s
        → Ended (repair_run o models plan_id p actions a r s).1
    unfolding repair_run
    Ended-repair_run r s repairs h =
        let opts : RepairOptions = repair_options o models plan_id p actions a in
        let heal = attempt_execution_self_heal o models opts actions r.results r.log_ids in
        let (q, there, st) =
          Preserves-heal o models plan_id opts Running Running-Closed actions r.results r.log_ids s
            h in
        after-bind Ended heal
          (λ x.
            end_run o models plan_id p actions (filter (is_bad o models) x.results)
              (record { results = x.results; log_ids = x.log_ids }) (some x))
          s
          (λ x _.
            Ended-end_run (filter (is_bad o models) x.results)
              (record { results = x.results; log_ids = x.log_ids }) (some x) (heal s).1
              (q, there, st))
          (λ x _. (q, there, stuck repairs st))

    Ended-conclude :
        (r : Run) (s : Service W) → Running s → Ended (conclude o models plan_id p actions a r s).1
    unfolding conclude
    Ended-conclude r s h =
        let bad = filter (is_bad o models) r.results in
        elim (Bool-cases (ltb 0 (length bad) && ltb 0 a.auto_repair_attempts)) [
          | inl both ↦ rw (both, conclude) (Ended-repair_run r s (ground arith) h)
          | inr other ↦ rw (other, conclude) (Ended-end_run bad r none s h)
        ]

    pub Ended-run_plan :
        (s : Service W) → Stored s → Ended (run_plan o models plan_id p actions a s).1
    unfolding run_plan PlanStore.mark_executing
    Ended-run_plan s h =
        let f = executing (o.now s.outer) (length actions) in
        let s1 : Service W = record s {
          plans = (change plan_id f s.plans (PlanStore.get plan_id s.plans)).1;
        } in
        let start : Run = record { results = []; log_ids = get_or [] p.action_log_ids } in
        let done = execute_actions o plan_id a.options (length actions) 1 actions start s1 in
        let started : Running s1 =
          HasStatus-change plan_id f "executing" s s1.plans (λ _. refl) (λ _. refl) h refl in
        let h' : Running done.1 =
          kept-execute_actions o models plan_id a Running Running-Closed (length actions) 1 actions
            start s1 started in
        elim (Result-cases done.0.0) [
          | inl (_, e) ↦ rw (e, run_plan) (Ended-conclude done.0.1 done.1 h')
          | inr (x, e) ↦ rw (e, run_plan) (Ended-abort x done.0.1 done.1 h')
        ]
