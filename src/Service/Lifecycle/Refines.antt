-- ===== src/Service/Lifecycle/Refines.antt =====
-- `approve_plan` and `reject_plan` against the diagram of a plan's statuses.
use nova_adapt.Base.{
  ℕ, String, Bool, true, false, not, ◌&&◌, ◌≡◌, refl, Option, none, some, List, [], ◌∷◌, str_eq,
  Bool-cases, inl, inr, if◌then◌else◌,
}
use nova_adapt.Base.Json.{Fields, Value}
use nova_adapt.Plans.PlanStore
use nova_adapt.Plans.PlanStore.{
  PlanRecord, Plans, executing, progressed, failed, approved, rejected, change,
}
use nova_adapt.Service.Actions.{Outside, Service}
use nova_adapt.Service.Repair.{Models}
use nova_adapt.Service.Admit.{
  Approval, Verdict, refuse, nothing, approve_only, run, retry_some, retry_prior, admit,
}
use nova_adapt.Service.Approve.{follow, no_report}
use nova_adapt.Service.Lifecycle.{
  HasStatus, HasStatus-change, Finished, ran_well, ran_badly, stuck, Ended-run_plan, plans-written,
}

-- A status from which a plan may be approved or started.
pub record CanStart (status : String) : Type 0 where
  pub not_rejected : str_eq status "rejected" ≡ false
  pub not_executing : str_eq status "executing" ≡ false
  pub not_executed : str_eq status "executed" ≡ false

-- The diagram.
infix 40 ◌⟶◌ ◌⟶*◌
pub data ◌⟶◌ (s t : String) : Type 0 where
  approve : CanStart s → t ≡ "approved" → s ⟶ t
  start : CanStart s → t ≡ "executing" → s ⟶ t
  finish : s ≡ "executing" → t ≡ "executed" → s ⟶ t
  fail : s ≡ "executing" → t ≡ "failed" → s ⟶ t
  reject : str_eq s "executed" ≡ false → t ≡ "rejected" → s ⟶ t

pub data ◌⟶*◌ (s : String) : String → Type 0 where
  here : s ⟶* s
  next : {t u : String} → s ⟶* t → t ⟶ u → s ⟶* u

pub ⟶*-trans : {s t u : String} → s ⟶* t → t ⟶* u → s ⟶* u
⟶*-trans h here = h
⟶*-trans h (next k st) = next (⟶*-trans h k) st

-- What `approve_plan` starts or approves may be started.
abbrev Starts : String → Verdict → Type 0
Starts status (refuse text) = Unit
Starts status nothing = Unit
Starts status approve_only = CanStart status
Starts status (run actions) = CanStart status

pick_branch :
    (P : Verdict → Type 0) (b : Bool) (v w : Verdict)
    → (b ≡ true → P v)
    → (b ≡ false → P w)
    → P (if b then v else w)
pick_branch P true v w h k = h refl
pick_branch P false v w h k = k refl

module _ (to_text : Value → String) (a : Approval) (p : PlanRecord) (can : CanStart p.status) where
  Starts-retry_some : (idxs : List ℕ) → Starts p.status (retry_some to_text a p idxs)
  unfolding retry_some
  Starts-retry_some [] = tt
  Starts-retry_some (idx ∷ idxs) = can

  Starts-retry_prior :
      (prior : Option (List Fields)) → Starts p.status (retry_prior to_text a p prior)
  unfolding retry_prior
  Starts-retry_prior none = tt
  Starts-retry_prior (some results) = Starts-retry_some _

pub Starts-admit :
    (to_text : Value → String) (a : Approval) (p : PlanRecord) → Starts p.status (admit to_text a p)
unfolding admit
Starts-admit to_text a p =
    let P = Starts p.status in
    pick_branch P (str_eq p.status "rejected") _ _ (λ _. tt)
      (λ not_rejected.
        pick_branch P (str_eq p.status "executing") _ _ (λ _. tt)
          (λ not_executing.
            pick_branch P (str_eq p.status "executed") _ _
              (λ _. pick_branch P a.retry_failed_only _ _ (λ _. tt) (λ _. tt))
              (λ not_executed.
                let can : CanStart p.status = record {
                  not_rejected = not_rejected;
                  not_executing = not_executing;
                  not_executed = not_executed;
                } in
                pick_branch P (a.retry_failed_only && not (str_eq p.status "failed")) _ _ (λ _. tt)
                  (λ _.
                    pick_branch P (a.retry_failed_only && not a.execute) _ _ (λ _. tt)
                      (λ _.
                        pick_branch P (not a.execute) _ _ (λ _. can)
                          (λ _.
                            pick_branch P a.retry_failed_only _ _
                              (λ _. Starts-retry_prior to_text a p can p.execution_results)
                              (λ _. can)))))))

-- What `approve_plan` does with an executed plan: nothing.
pub admit-executed :
    (to_text : Value → String) (a : Approval) (p : PlanRecord)
    → p.status ≡ "executed"
    → (text : Option String) × (admit to_text a p
        ≡ elim text [ none ↦ nothing | some x ↦ refuse x ])
unfolding admit
admit-executed to_text a p done = elim (Bool-cases a.retry_failed_only) [
  | inl retries ↦ (
    some "Plan is already executed and has no failed actions to retry",
    rw done (rw retries refl),
  )
  | inr other ↦ (none, rw done (rw other refl))
]

module _ {W : Type 0} (o : Outside W) (models : Models W) where
  -- How a run has left the status is where the diagram leads to.
  Finished-Reach :
      (a : Approval) (status later : String) → CanStart status → Finished a later → status ⟶* later
  Finished-Reach a status later can (ran_well e) = next (next here (start can refl)) (finish refl e)
  Finished-Reach a status later can (ran_badly e) = next (next here (start can refl)) (fail refl e)
  Finished-Reach a status later can (stuck _ e) = next here (start can e)

  pub Reach-follow :
      (plan_id : String) (a : Approval) (p : PlanRecord) (v : Verdict) (s : Service W)
      → PlanStore.get plan_id s.plans ≡ some p
      → Starts p.status v
      → HasStatus plan_id (λ later. p.status ⟶* later) (follow o models plan_id a p v s).1
  unfolding PlanStore.approve
  Reach-follow plan_id a p (refuse text) s there can = (p, there, here)
  Reach-follow plan_id a p nothing s there can = (p, there, here)
  Reach-follow plan_id a p approve_only s there can =
      let f = approved (o.now s.outer) "approved" (no_report o) in
      let (q, found, st) =
        HasStatus-change plan_id f "approved" s (follow o models plan_id a p approve_only s).1.plans
          (λ _. refl) (λ _. refl) (p, there, tt)
          (plans-written o (λ _. [])
            (PlanStore.approve (o.now s.outer) plan_id "approved" (no_report o) s.plans) s) in
      (q, found, next here (approve can st))
  Reach-follow plan_id a p (run actions) s there can =
      let (q, found, ended) = Ended-run_plan o models plan_id a p actions s (p, there, tt) in
      (q, found, Finished-Reach a p.status q.status can ended)
