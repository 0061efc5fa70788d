-- ===== src/Service/Permitted.antt =====
-- What `approve_plan` may do outside of the service.
use nova_adapt.Base.{ℕ, String, true, ◌≡◌}
use nova_adapt.Base.Json.{Fields}
use nova_adapt.Base.Exec.Preserves.{Preserves}
use nova_adapt.Plans.Policy.{evaluate}
use nova_adapt.Service.Routing.{execute_routed_action}
use nova_adapt.Service.Actions.{Outside, Service, MemoryCall, log_action}
use nova_adapt.Service.Repair.{Models, Proposal, RepairOptions}
use nova_adapt.Service.Admit.{Approval}
use nova_adapt.Service.Approve.{approve_plan}
use nova_adapt.Service.Closed.Runs.{Preserves-approve_plan}

module _ {W : Type 0} (o : Outside W) (models : Models W) (plan_id : String) (a : Approval)
    (Inv : W → Type 0) where
  -- Whatever holds of the world outside of the service and is kept by each action that the policy lets
  -- through under the approval's `allow_dangerous`, by a wait, by the memory backend, by a question to
  -- the models and by the record of its cost, still holds after `approve_plan`, however it ends: no
  -- other action is ever given to `_execute_routed_action`, not by the plan, not by a retry and not by
  -- a repair.
  pub only_permitted :
      ((action : Fields)
        → (evaluate o.ex.to_text action a.options.allow_dangerous).allowed ≡ true
        → Preserves Inv (execute_routed_action o.ex o.depth true action))
      → ((n : ℕ) (w : W) → Inv w → Inv (o.sleep n w))
      → ((c : MemoryCall) (w : W) → Inv w → Inv (o.remember c w))
      → ((objective domain : String) (opts : RepairOptions)
          → Preserves Inv (models.propose objective domain opts))
      → ((objective : String) (p : Proposal) (w : W)
          → Inv w
          → Inv (models.record_model_usage objective p w))
      → (s : Service W) → Inv s.outer
      → Inv (approve_plan o models plan_id a s).1.outer
  unfolding log_action
  only_permitted acts waits memory asks pays =
      Preserves-approve_plan o models plan_id a (λ s. Inv s.outer)
        (record {
          execute = λ action allowed s h. acts action allowed s.outer h;
          sleep = λ n s h. waits n s.outer h;
          remember = λ c s h. memory c s.outer h;
          propose = λ objective domain opts s h. asks objective domain opts s.outer h;
          usage = λ objective p s h. pays objective p s.outer h;
          log = λ action status u s h. h;
          progress = λ now g s h. h;
        })
        (record {
          start = λ now total s h. h;
          fail = λ now error g s h. h;
          approve = λ now status g s h. h;
        })
