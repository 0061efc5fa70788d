-- ===== src/Service/Closed/Runs.antt =====
-- What `approve_plan` and `reject_plan` keep.
use nova_adapt.Base.{
  ℕ, ◌+◌, String, Bool, true, false, ◌&&◌, refl, Option, none, some, List, [], ◌∷◌, ltb, length,
  filter, get_or, Option-cases, inl, inr,
}
use Prim.Native.String
use nova_adapt.Base.Decimal.{show}
use nova_adapt.Base.Json.{Fields}
use nova_adapt.Base.Exec.{Error, Result-cases, ◌>>◌}
use nova_adapt.Base.Exec.Preserves.{Preserves, Preserves-bind, Preserves-elim}
use nova_adapt.Plans.PlanStore
use nova_adapt.Plans.PlanStore.{
  PlanRecord, Plans, Report, executing, progressed, failed, approved, rejected, change,
}
use nova_adapt.Service.Actions.{Outside, Service, MemoryCall, persist_plan, check_cancel, perform}
use nova_adapt.Service.Repair.{Models, RepairOptions, Healing, is_bad, attempt_execution_self_heal}
use nova_adapt.Service.Admit.{Approval, Verdict, refuse, nothing, approve_only, run, admit}
use nova_adapt.Service.Approve.{
  Run, with_entry, save_progress, execute_actions, remember_all, written, abort, end_run,
  end_failed, end_executed, failed_calls, executed_calls, repair_run, conclude, run_plan, follow,
  approve_plan, repair_options, run_report, no_report,
}
use nova_adapt.Service.Closed.{Closed, Ends, Preserves-check_cancel, Preserves-perform}
use nova_adapt.Service.Closed.Repairs.{Preserves-heal}

module _ {κ} {W : Type 0} (o : Outside W) (models : Models W) (plan_id : String) (a : Approval)
    (P : Service W → Type κ) (c : Closed o models plan_id a.options.allow_dangerous P) where
  kept-save_progress :
      (total idx : ℕ) (r : Run) (s : Service W) → P s → P (save_progress o plan_id total idx r s)
  unfolding save_progress PlanStore.update_execution_progress
  kept-save_progress total idx r s h =
      c.progress (o.now s.outer)
        (record { results = r.results; log_ids = r.log_ids; completed = idx; total = total }) s h

  pub kept-execute_actions :
      (total idx : ℕ) (actions : List Fields) (r : Run) (s : Service W)
      → P s
      → P (execute_actions o plan_id a.options total idx actions r s).1
  unfolding execute_actions
  kept-execute_actions total idx [] r s h = h
  kept-execute_actions total idx (action ∷ actions) r s h =
      let m = check_cancel o >> perform o a.options action in
      let h' : P (m s).1 =
        Preserves-bind P (check_cancel o) (λ _. perform o a.options action)
          (Preserves-check_cancel o models plan_id a.options.allow_dangerous P c)
          (λ _.
            Preserves-perform o models plan_id a.options.allow_dangerous P c a.options action refl)
          s h in
      elim (Result-cases (m s).0) [
        | inl (one, e) ↦
            rw (e, execute_actions)
              (kept-execute_actions total (idx + 1) actions (with_entry r one) _
                (kept-save_progress total idx (with_entry r one) (m s).1 h'))
        | inr (x, e) ↦ rw (e, execute_actions) h'
      ]

  pub kept-remember_all :
      (calls : List MemoryCall) (s : Service W) → P s → P (remember_all o calls s)
  unfolding remember_all
  kept-remember_all [] s h = h
  kept-remember_all (call ∷ calls) s h = kept-remember_all calls _ (c.remember call s h)

  kept-written :
      (calls : PlanRecord → List MemoryCall) (x : Option PlanRecord × Plans) (s : Service W)
      → P (record s { plans = x.1 })
      → P (written o calls x s).1
  unfolding written
  kept-written calls (none, plans) s h = h
  kept-written calls (some p, plans) s h = kept-remember_all (calls p) _ h

  module _ (x : Ends plan_id P) (p : PlanRecord) (actions : List Fields) where
    Preserves-abort : (e : Error) (r : Run) → Preserves P (abort o models plan_id p actions e r)
    unfolding abort PlanStore.fail_execution
    Preserves-abort e r s h =
        let g = run_report o (length actions) r none in
        let now = o.now s.outer in
        kept-remember_all
          (persist_plan plan_id p.objective "failed" actions r.results (o.error_text e) ∷ []) _
          (x.fail now (o.error_text e) g s h)

    Preserves-end_failed :
        (bad : List Fields) (r : Run) (h : Option Healing)
        → Preserves P (end_failed o models plan_id p actions bad r h)
    unfolding end_failed PlanStore.fail_execution
    Preserves-end_failed bad r h s k =
        let now = o.now s.outer in
        let error = String.◌++◌ (show (length bad)) " actions failed or were blocked" in
        let g = run_report o (length actions) r h in
        kept-written (failed_calls o models plan_id p actions r h)
          (PlanStore.fail_execution now plan_id error g s.plans) s (x.fail now error g s k)

    Preserves-end_executed :
        (event_names : List String) (dream : Bool) (r : Run) (h : Option Healing)
        → Preserves P (end_executed o models plan_id p actions event_names dream r h)
    unfolding end_executed PlanStore.approve
    Preserves-end_executed event_names dream r h s k =
        let now = o.now s.outer in
        let g = run_report o (length actions) r h in
        kept-written (executed_calls o models plan_id p actions event_names dream r)
          (PlanStore.approve now plan_id "executed" g s.plans) s (x.approve now "executed" g s k)

    Preserves-end_run :
        (bad : List Fields) (r : Run) (h : Option Healing)
        → Preserves P (end_run o models plan_id p actions bad r h)
    unfolding end_run
    Preserves-end_run [] r none = Preserves-end_executed ("plan.executed" ∷ []) false r none
    Preserves-end_run [] r (some h) =
        Preserves-elim P h.healed
          (end_executed o models plan_id p actions ("plan.executed" ∷ "plan.auto_repaired" ∷ [])
            true r (some h))
          (end_executed o models plan_id p actions ("plan.executed" ∷ []) false r (some h))
          (λ _.
            Preserves-end_executed ("plan.executed" ∷ "plan.auto_repaired" ∷ []) true r (some h))
          (λ _. Preserves-end_executed ("plan.executed" ∷ []) false r (some h))
    Preserves-end_run (b ∷ bad) r h = Preserves-end_failed (b ∷ bad) r h

    Preserves-repair_run : (r : Run) → Preserves P (repair_run o models plan_id p actions a r)
    unfolding repair_run
    Preserves-repair_run r =
        let opts : RepairOptions = repair_options o models plan_id p actions a in
        Preserves-bind P (attempt_execution_self_heal o models opts actions r.results r.log_ids)
          (λ h.
            end_run o models plan_id p actions (filter (is_bad o models) h.results)
              (record { results = h.results; log_ids = h.log_ids }) (some h))
          (Preserves-heal o models plan_id opts P c actions r.results r.log_ids)
          (λ h.
            Preserves-end_run (filter (is_bad o models) h.results)
              (record { results = h.results; log_ids = h.log_ids }) (some h))

    Preserves-conclude : (r : Run) → Preserves P (conclude o models plan_id p actions a r)
    unfolding conclude
    Preserves-conclude r =
        let bad = filter (is_bad o models) r.results in
        Preserves-elim P (ltb 0 (length bad) && ltb 0 a.auto_repair_attempts)
          (repair_run o models plan_id p actions a r)
          (end_run o models plan_id p actions bad r none) (λ _. Preserves-repair_run r)
          (λ _. Preserves-end_run bad r none)

    Preserves-run_plan : Preserves P (run_plan o models plan_id p actions a)
    unfolding run_plan PlanStore.mark_executing
    Preserves-run_plan s h =
        let s1 : Service W = record s {
          plans = (PlanStore.mark_executing (o.now s.outer) plan_id (length actions) s.plans).1;
        } in
        let start : Run = record { results = []; log_ids = get_or [] p.action_log_ids } in
        let done = execute_actions o plan_id a.options (length actions) 1 actions start s1 in
        let h' : P done.1 =
          kept-execute_actions (length actions) 1 actions start s1
            (x.start (o.now s.outer) (length actions) s h) in
        elim (Result-cases done.0.0) [
          | inl (_, e) ↦ rw (e, run_plan) (Preserves-conclude done.0.1 done.1 h')
          | inr (err, e) ↦ rw (e, run_plan) (Preserves-abort err done.0.1 done.1 h')
        ]

  Preserves-follow :
      (x : Ends plan_id P) (p : PlanRecord) (v : Verdict)
      → Preserves P (follow o models plan_id a p v)
  unfolding PlanStore.approve
  Preserves-follow x p (refuse text) s h = h
  Preserves-follow x p nothing s h = h
  Preserves-follow x p approve_only s h =
      kept-written (λ _. [])
        (PlanStore.approve (o.now s.outer) plan_id "approved" (no_report o) s.plans) s
        (x.approve (o.now s.outer) "approved" (no_report o) s h)
  Preserves-follow x p (run actions) s h = Preserves-run_plan x p actions s h

  pub Preserves-approve_plan : Ends plan_id P → Preserves P (approve_plan o models plan_id a)
  unfolding approve_plan
  Preserves-approve_plan x s h = elim (Option-cases (PlanStore.get plan_id s.plans)) [
    | inl gone ↦ rw (gone, approve_plan) h
    | inr (p, there) ↦ rw (there, approve_plan) (Preserves-follow x p (admit o.ex.to_text a p) s h)
  ]
