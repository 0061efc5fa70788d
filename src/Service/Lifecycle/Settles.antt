-- ===== src/Service/Lifecycle/Settles.antt =====
-- Whether `approve_plan` leaves a plan behind that says that it is running.
use nova_adapt.Base.{
  ◌&&◌, ltb, length, get_or, true, String, false, ◌≡◌, refl, some, List, [], filter, arith, str_eq,
}
use nova_adapt.Base.Json.{Fields}
use nova_adapt.Base.Exec.{Result, ok, raised, Error, value_error}
use nova_adapt.Plans.PlanStore
use nova_adapt.Plans.PlanStore.{PlanRecord, approved, executing, change}
use nova_adapt.Service.Actions.{Outside, Service}
use nova_adapt.Base.Exec.Preserves.{bind_raised}
use nova_adapt.Service.Repair.{Models, Healing, is_bad, attempt_execution_self_heal}
use nova_adapt.Service.Admit.{Approval, Verdict, refuse, nothing, approve_only, run, admit}
use nova_adapt.Service.Approve.{
  Run, execute_actions, conclude, run_plan, follow, approve_plan, end_run, repair_run,
  repair_options, no_report,
}
use nova_adapt.Service.Closed.Repairs.{Preserves-heal}
use nova_adapt.Service.Closed.Runs.{kept-execute_actions}
use nova_adapt.Service.Lifecycle.{
  HasStatus, HasStatus-change, Is, Finished, ran_well, ran_badly, stuck, Ended-run_plan,
  Running-Closed, plans-written,
}

abbrev pub IsIdle : String → Type 0
IsIdle status = str_eq status "executing" ≡ false

module _ {W : Type 0} (o : Outside W) (models : Models W) (plan_id : String) (a : Approval) where
  Finished-IsIdle :
      (status : String) → a.auto_repair_attempts ≡ 0 → Finished a status → IsIdle status
  Finished-IsIdle status none_left (ran_well e) = rw e refl
  Finished-IsIdle status none_left (ran_badly e) = rw e refl
  Finished-IsIdle status none_left (stuck left e) = absurd (ground arith)

  IsIdle-follow :
      (p : PlanRecord) (v : Verdict) (s : Service W)
      → a.auto_repair_attempts ≡ 0
      → PlanStore.get plan_id s.plans ≡ some p
      → IsIdle p.status
      → HasStatus plan_id IsIdle (follow o models plan_id a p v s).1
  unfolding PlanStore.approve
  IsIdle-follow p (refuse text) s off there idle = (p, there, idle)
  IsIdle-follow p nothing s off there idle = (p, there, idle)
  IsIdle-follow p approve_only s off there idle =
      let (q, found, st) =
        HasStatus-change plan_id (approved (o.now s.outer) "approved" (no_report o)) "approved" s
          (follow o models plan_id a p approve_only s).1.plans (λ _. refl) (λ _. refl)
          (p, there, tt)
          (plans-written o (λ _. [])
            (PlanStore.approve (o.now s.outer) plan_id "approved" (no_report o) s.plans) s) in
      (q, found, rw st refl)
  IsIdle-follow p (run actions) s off there idle =
      let (q, found, ended) = Ended-run_plan o models plan_id a p actions s (p, there, tt) in
      (q, found, Finished-IsIdle q.status off ended)

  -- Without repairs, `approve_plan` on a stored plan that is not running ends, returning or raising, with
  -- the plan stored and not running: also where an executor raises, and where the operator cancels.
  pub approve_settles :
      (s : Service W) (p : PlanRecord)
      → a.auto_repair_attempts ≡ 0
      → PlanStore.get plan_id s.plans ≡ some p
      → str_eq p.status "executing" ≡ false
      → HasStatus plan_id IsIdle (approve_plan o models plan_id a s).1
  unfolding approve_plan
  approve_settles s p off there idle =
      rw (there, approve_plan) (IsIdle-follow p (admit o.ex.to_text a p) s off there idle)

module _ {W : Type 0} (o : Outside W) (models : Models W) (plan_id : String) where
  admit-executing :
      (a : Approval) (p : PlanRecord)
      → p.status ≡ "executing"
      → admit o.ex.to_text a p ≡ refuse "Plan is already executing"
  unfolding admit
  admit-executing a p runs = rw runs refl

  approve-executing :
      (a : Approval) (s : Service W)
      → HasStatus plan_id (Is "executing") s
      → approve_plan o models plan_id a s ≡ (raised (value_error "Plan is already executing"), s)
  unfolding approve_plan
  approve-executing a s (p, there, runs) =
      rw (there, approve_plan) (rw (admit-executing a p runs) refl)

  module _ (a : Approval) (p : PlanRecord) (actions : List Fields) where
    repair_run-raised :
        (r : Run) (s : Service W) (e : Error)
        → (attempt_execution_self_heal o models
            (repair_options o models plan_id p actions a)
            actions
            r.results
            r.log_ids
            s).0
          ≡ raised e
        → repair_run o models plan_id p actions a r s ≡ (
          raised e,
          (attempt_execution_self_heal o models
              (repair_options o models plan_id p actions a)
              actions
              r.results
              r.log_ids
              s).1,
        )
    unfolding repair_run
    repair_run-raised r s e fails =
        bind_raised
          (attempt_execution_self_heal o models (repair_options o models plan_id p actions a)
            actions r.results r.log_ids)
          (λ h.
            end_run o models plan_id p actions (filter (is_bad o models) h.results)
              (record { results = h.results; log_ids = h.log_ids }) (some h))
          s e fails

    -- The loop over the actions, as `approve_plan` starts it.
    abbrev pub loop : Service W → (Result (Unit {0}) × Run) × Service W
    loop s =
        execute_actions o plan_id a.options (length actions) 1 actions
          (record { results = []; log_ids = get_or [] p.action_log_ids })
          (record s {
            plans = (PlanStore.mark_executing (o.now s.outer) plan_id (length actions) s.plans).1;
          })

    loop-Running :
        (s : Service W)
        → HasStatus plan_id (λ _. Unit {0}) s
        → HasStatus plan_id (Is "executing") (loop s).1
    unfolding PlanStore.mark_executing
    loop-Running s h =
        let f = executing (o.now s.outer) (length actions) in
        let s1 : Service W = record s {
          plans = (change plan_id f s.plans (PlanStore.get plan_id s.plans)).1;
        } in
        kept-execute_actions o models plan_id a (HasStatus plan_id (Is "executing"))
          (Running-Closed o models plan_id a) (length actions) 1 actions
          (record { results = []; log_ids = get_or [] p.action_log_ids }) s1
          (HasStatus-change plan_id f "executing" s s1.plans (λ _. refl) (λ _. refl) h refl)

    -- The repair after it.
    abbrev pub heal : Service W → Result Healing × Service W
    heal s =
        attempt_execution_self_heal o models (repair_options o models plan_id p actions a) actions
          (loop s).0.1.results (loop s).0.1.log_ids (loop s).1

    -- If `approve_plan` goes through the actions of a stored plan, some of them fail, repairs are allowed,
    -- and the repair raises, because the models cannot be asked or the operator cancels, then the error goes
    -- past the `except` branch: `approve_plan` raises it, the plan is left at the status "executing", and
    -- `approve_plan` refuses it from then on, whatever its payload.
    pub repair_raise_sticks :
        (s : Service W) (e : Error)
        → PlanStore.get plan_id s.plans ≡ some p
        → admit o.ex.to_text a p ≡ run actions
        → (loop s).0.0 ≡ ok tt
        → (ltb 0 (length (filter (is_bad o models) (loop s).0.1.results))
            && ltb 0 a.auto_repair_attempts)
          ≡ true
        → (heal s).0 ≡ raised e
        → let (answer, s') = approve_plan o models plan_id a s in
          (answer ≡ raised e)
          × HasStatus plan_id (Is "executing") s'
          × ((a' : Approval)
              → approve_plan o models plan_id a' s'
                ≡ (raised (value_error "Plan is already executing"), s'))
    unfolding approve_plan run_plan conclude
    repair_raise_sticks s e there admitted went bad fails =
        let ends : approve_plan o models plan_id a s ≡ (raised e, (heal s).1) =
          rw (there, approve_plan)
            (rw admitted (
              rw (went, run_plan)
                (rw (bad, conclude) (repair_run-raised (loop s).0.1 (loop s).1 e fails)))) in
        let kept : HasStatus plan_id (Is "executing") (heal s).1 =
          Preserves-heal o models plan_id (repair_options o models plan_id p actions a)
            (HasStatus plan_id (Is "executing")) (Running-Closed o models plan_id a) actions
            (loop s).0.1.results (loop s).0.1.log_ids (loop s).1 (loop-Running s (p, there, tt)) in
        rw ends (refl, kept, λ a'. approve-executing a' (heal s).1 kept)
