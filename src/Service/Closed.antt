-- ===== src/Service/Closed.antt =====
-- What `approve_plan` and `reject_plan` keep, if each of the calls that they make keeps it.
pub mod Repairs
pub mod Runs
use nova_adapt.Base.{
  ℕ, zero, suc, ◌+◌, String, Bool, true, false, ◌≡◌, refl, Option, none, some, List, [], ◌∷◌, ◌++◌,
  Bool-cases, Option-cases, inl, inr, ltb, str_eq, max,
}
use nova_adapt.Base.Json.{Fields}
use nova_adapt.Base.Exec.{Exec, Result, ok, raised, Error, Result-cases, ◌>>=◌, ◌>>◌, pure}
use nova_adapt.Base.Exec.Preserves.{Preserves, Preserves-bind, Preserves-raise_if, Preserves-elim}
use nova_adapt.Plans.PlanStore
use nova_adapt.Plans.PlanStore.{
  PlanRecord, Plans, Progress, Report, executing, progressed, failed, approved, rejected, change,
}
use nova_adapt.Plans.PlanStore.Follows.{Follows, Follows-executing, Follows-approved, Follows-same}
use nova_adapt.Plans.Policy.{PolicyDecision, evaluate}
use nova_adapt.Service.Routing.{Routed}
use nova_adapt.Service.Actions.{
  Outside, Service, Options, MemoryCall, execute, outside, log_action, check_cancel, back_off,
  retry, perform, perform_repair, is_ok, block, carry_out, carry_out_once, undo_of, blocked_result,
  action_result, repair_result,
}
use nova_adapt.Service.Repair.{
  Models, Proposal, RepairOptions, Attempt, Healing, run_repair_actions, run_repair_objective,
  heal_from, heal_bad, attempt_execution_self_heal, failed_indexes, attempt_failed,
}
use nova_adapt.Service.Admit.{Approval, Verdict, refuse, nothing, approve_only, run, admit}
use nova_adapt.Service.Approve.{
  Run, with_entry, save_progress, execute_actions, remember, remember_all, written, abort, end_run,
  repair_run, conclude, run_plan, follow, approve_plan, reject_plan,
}

-- A change of the plan `plan_id` keeps `P`.
abbrev pub KeepsChange {κ} :
    {W : Type 0} → String → (Service W → Type κ) → (PlanRecord → PlanRecord) → Type κ
KeepsChange {W} plan_id P f =
    (s : Service W)
    → P s
    → P (record s { plans = (change plan_id f s.plans (PlanStore.get plan_id s.plans)).1 })

-- Each call keeps `P` but those that change the status of the plan; of the actions, those that the
-- policy lets through.
pub record Closed {κ} {W : Type 0} (o : Outside W) (models : Models W) (plan_id : String)
    (allow_dangerous : Bool) (P : Service W → Type κ) : Type κ where
  pub execute :
      (a : Fields)
      → (evaluate o.ex.to_text a allow_dangerous).allowed ≡ true
      → Preserves P (execute o a)
  pub sleep : (n : ℕ) (s : Service W) → P s → P (record s { outer = o.sleep n s.outer })
  pub remember : (c : MemoryCall) (s : Service W) → P s → P (remember o c s)
  pub propose :
      (objective domain : String) (opts : RepairOptions)
      → Preserves P (outside o (models.propose objective domain opts))
  pub usage :
      (objective : String) (p : Proposal) (s : Service W)
      → P s
      → P (record s { outer = models.record_model_usage objective p s.outer })
  pub log :
      (a : Fields) (status : String) (u : Option Fields) → Preserves P (log_action o a status u)
  pub progress : (now : ℕ) (g : Progress) → KeepsChange plan_id P (progressed now g)

-- The changes of the status of a plan that is run or approved keep `P`.
pub record Ends {κ} {W : Type 0} (plan_id : String) (P : Service W → Type κ) : Type κ where
  pub start : (now total : ℕ) → KeepsChange plan_id P (executing now total)
  pub fail : (now : ℕ) (error : String) (g : Report) → KeepsChange plan_id P (failed now error g)
  pub approve :
      (now : ℕ) (status : String) (g : Report) → KeepsChange plan_id P (approved now status g)

module _ {κ} {W : Type 0} (o : Outside W) (models : Models W) (plan_id : String)
    (allow_dangerous : Bool) (P : Service W → Type κ)
    (c : Closed o models plan_id allow_dangerous P) where
  Preserves-back_off : (backoff done : ℕ) → Preserves P (back_off o backoff done)
  Preserves-back_off backoff zero s h = h
  Preserves-back_off backoff (suc done) s h = elim (Bool-cases (ltb 0 backoff)) [
    | inl waits ↦ rw waits (c.sleep _ s h)
    | inr other ↦ rw other h
  ]

  pub Preserves-check_cancel : Preserves P (check_cancel o)
  Preserves-check_cancel s h = elim (Bool-cases (o.cancel_requested s.outer)) [
    | inl asked ↦ rw asked h
    | inr other ↦ rw other h
  ]

  Preserves-retry :
      (left backoff attempts : ℕ) (action : Fields) (routed : Routed)
      → (evaluate o.ex.to_text action allow_dangerous).allowed ≡ true
      → Preserves P (retry o left backoff attempts action routed)
  unfolding retry
  Preserves-retry zero backoff attempts action routed allowed = λ s h. h
  Preserves-retry (suc left) backoff attempts action routed allowed =
      Preserves-elim P (is_ok routed) (pure (routed, attempts))
        (do
          check_cancel o
          back_off o backoff attempts
          next ← execute o action
          retry o left backoff (attempts + 1) action next)
        (λ _ s h. h)
        (λ _.
          Preserves-bind P (check_cancel o)
            (λ _. do
              back_off o backoff attempts
              next ← execute o action
              retry o left backoff (attempts + 1) action next)
            Preserves-check_cancel
            (λ _.
              Preserves-bind P (back_off o backoff attempts)
                (λ _. do next ← execute o action; retry o left backoff (attempts + 1) action next)
                (Preserves-back_off backoff attempts)
                (λ _.
                  Preserves-bind P (execute o action)
                    (λ next. retry o left backoff (attempts + 1) action next)
                    (c.execute action allowed)
                    (λ next. Preserves-retry left backoff (attempts + 1) action next allowed))))

  -- What ends with a row in the log.
  Preserves-logged :
      {A : Type 0} (action : Fields) (status : String) (u : Option Fields) (f : ℕ → A)
      → Preserves P (log_action o action status u >>= λ id. pure (f id))
  Preserves-logged action status u f =
      Preserves-bind P (log_action o action status u) (λ id. pure (f id)) (c.log action status u)
        (λ _ s h. h)

  Preserves-carry_out :
      (opts : Options) (d : PolicyDecision) (action : Fields)
      → (evaluate o.ex.to_text action allow_dangerous).allowed ≡ true
      → Preserves P (carry_out o opts d action)
  Preserves-carry_out opts d action allowed =
      Preserves-bind P (execute o action)
        (λ first. do
          done ← retry o opts.retries opts.backoff 1 action first
          id ← log_action o done.0.action done.0.status (undo_of action)
          pure (action_result d done.0 done.1, id))
        (c.execute action allowed)
        (λ first.
          Preserves-bind P (retry o opts.retries opts.backoff 1 action first)
            (λ done. do
              id ← log_action o done.0.action done.0.status (undo_of action)
              pure (action_result d done.0 done.1, id))
            (Preserves-retry opts.retries opts.backoff 1 action first allowed)
            (λ done.
              Preserves-logged {A = Fields × ℕ} done.0.action done.0.status (undo_of action)
                (λ id. (action_result d done.0 done.1, id))))

  pub Preserves-perform :
      (opts : Options) (action : Fields)
      → opts.allow_dangerous ≡ allow_dangerous
      → Preserves P (perform o opts action)
  unfolding perform
  Preserves-perform opts action same =
      let d = evaluate o.ex.to_text action opts.allow_dangerous in
      Preserves-elim P d.allowed (carry_out o opts d action) (block o d action)
        (λ let_through. Preserves-carry_out opts d action (rw (← same) let_through))
        (λ _.
          Preserves-logged {A = Fields × ℕ} action "blocked" (undo_of action)
            (λ id. (blocked_result d action, id)))

  Preserves-perform_repair :
      (action : Fields) → Preserves P (perform_repair o allow_dangerous action)
  unfolding perform_repair
  Preserves-perform_repair action =
      let d = evaluate o.ex.to_text action allow_dangerous in
      Preserves-elim P d.allowed (carry_out_once o d action) (block o d action)
        (λ allowed.
          Preserves-bind P (execute o action)
            (λ routed. do
              id ← log_action o routed.action routed.status (undo_of action)
              pure (repair_result d routed, id))
            (c.execute action allowed)
            (λ routed.
              Preserves-logged {A = Fields × ℕ} routed.action routed.status (undo_of action)
                (λ id. (repair_result d routed, id))))
        (λ _.
          Preserves-logged {A = Fields × ℕ} action "blocked" (undo_of action)
            (λ id. (blocked_result d action, id)))

  pub Preserves-run_repair_actions :
      (actions : List Fields) → Preserves P (run_repair_actions o models allow_dangerous actions)
  unfolding run_repair_actions
  Preserves-run_repair_actions [] = λ s h. h
  Preserves-run_repair_actions (action ∷ actions) =
      Preserves-bind P (perform_repair o allow_dangerous action)
        (λ one. do
          rest ← run_repair_actions o models allow_dangerous actions
          pure (one.0 ∷ rest.0, one.1 ∷ rest.1))
        (Preserves-perform_repair action)
        (λ one.
          Preserves-bind P (run_repair_actions o models allow_dangerous actions)
            (λ rest. pure (one.0 ∷ rest.0, one.1 ∷ rest.1)) (Preserves-run_repair_actions actions)
            (λ _ s h. h))
