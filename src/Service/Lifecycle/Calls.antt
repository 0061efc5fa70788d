-- ===== src/Service/Lifecycle/Calls.antt =====
-- Calls of `approve_plan` and `reject_plan`, one after the other, of one plan and of others.
use nova_adapt.Base.{
  String, false, ◌≡◌, refl, sym, subst, ap, ◌∙◌, ◌⊎◌, Option, some, List, [], ◌∷◌, arith, str_eq,
  eq_iff, Bool-cases, Option-cases, inl, inr,
}
use nova_adapt.Plans.PlanStore
use nova_adapt.Plans.PlanStore.{
  PlanRecord, executing, progressed, failed, approved, rejected, change,
}
use nova_adapt.Plans.PlanStore.Laws.{KeepsId, get-change}
use nova_adapt.Service.Actions.{Outside, Service, log_action}
use nova_adapt.Service.Repair.{Models}
use nova_adapt.Service.Admit.{Approval, admit}
use nova_adapt.Service.Approve.{approve_plan, reject_plan, reject_found, reject_calls}
use nova_adapt.Service.Closed.{KeepsChange}
use nova_adapt.Service.Closed.Runs.{Preserves-approve_plan}
use nova_adapt.Service.Lifecycle.{HasStatus, HasStatus-change, plans-written}
use nova_adapt.Service.Lifecycle.Refines.{
  ◌⟶*◌, here, next, reject, ⟶*-trans, Starts-admit, admit-executed, Reach-follow,
}

-- A call of the service that may change the status of a plan.
pub data Call : Type 0 where
  approves : String → Approval → Call
  rejects : String → Option String → Call

abbrev pub target_id : Call → String
target_id (approves plan_id a) = plan_id
target_id (rejects plan_id reason) = plan_id

module _ {W : Type 0} (o : Outside W) (models : Models W) where
  abbrev pub call : Call → Service W → Service W
  call (approves plan_id a) s = (approve_plan o models plan_id a s).1
  call (rejects plan_id reason) s = (reject_plan o plan_id reason s).1

  abbrev pub call_all : List Call → Service W → Service W
  call_all [] s = s
  call_all (c ∷ cs) s = call_all cs (call c s)

  -- A change of another plan.
  KeepsChange-other :
      (j plan_id : String) (q : Option PlanRecord) (f : PlanRecord → PlanRecord)
      → str_eq j plan_id ≡ false
      → KeepsId f
      → KeepsChange {W = W} j (λ s. PlanStore.get plan_id s.plans ≡ q) f
  KeepsChange-other j plan_id q f other keep s h =
      ground (arith, get-change j plan_id f s.plans keep, other, h)

  approve_other :
      (j plan_id : String) (a : Approval) (s : Service W)
      → str_eq j plan_id ≡ false
      → PlanStore.get plan_id (approve_plan o models j a s).1.plans ≡ PlanStore.get plan_id s.plans
  unfolding log_action
  approve_other j plan_id a s other =
      let q = PlanStore.get plan_id s.plans in
      Preserves-approve_plan o models j a (λ s. PlanStore.get plan_id s.plans ≡ q)
        (record {
          execute = λ action allowed s h. h;
          sleep = λ n s h. h;
          remember = λ c s h. h;
          propose = λ objective domain opts s h. h;
          usage = λ objective p s h. h;
          log = λ action status u s h. h;
          progress = λ now g. KeepsChange-other j plan_id q (progressed now g) other (λ _. refl);
        })
        (record {
          start =
              λ now total. KeepsChange-other j plan_id q (executing now total) other (λ _. refl);
          fail =
              λ now error g. KeepsChange-other j plan_id q (failed now error g) other (λ _. refl);
          approve = λ now status g.
              KeepsChange-other j plan_id q (approved now status g) other (λ _. refl);
        })
        s refl

  plans-reject_found :
      (j : String) (reason : Option String) (s : Service W)
      → (reject_found o j reason s).1.plans
        ≡ (change j (rejected (o.now s.outer) reason) s.plans (PlanStore.get j s.plans)).1
  unfolding reject_found PlanStore.reject
  plans-reject_found j reason s =
      plans-written o (reject_calls o j reason) (PlanStore.reject (o.now s.outer) j reason s.plans)
        s

  -- `reject_plan` leaves everything alone, or it ends with `reject_found`.
  reject-cases :
      (j : String) (reason : Option String) (s : Service W)
      → ((reject_plan o j reason s).1 ≡ s)
        ⊎ ((p : PlanRecord) × (PlanStore.get j s.plans ≡ some p)
            × (str_eq p.status "executed" ≡ false)
            × ((reject_plan o j reason s).1 ≡ (reject_found o j reason s).1))
  unfolding reject_plan
  reject-cases j reason s = elim (Option-cases (PlanStore.get j s.plans)) [
    | inl gone ↦ inl (rw (gone, reject_plan) refl)
    | inr (p, there) ↦ elim (Bool-cases (str_eq p.status "executed")) [
      | inl done ↦ inl (rw (there, reject_plan) (rw done refl))
      | inr not_done ↦ inr (p, there, not_done, rw (there, reject_plan) (rw not_done refl))
    ]
  ]

  call_other :
      (c : Call) (plan_id : String) (s : Service W)
      → str_eq (target_id c) plan_id ≡ false
      → PlanStore.get plan_id (call c s).plans ≡ PlanStore.get plan_id s.plans
  call_other (approves j a) plan_id s other = approve_other j plan_id a s other
  call_other (rejects j reason) plan_id s other = elim (reject-cases j reason s) [
    | inl same ↦ ap (λ (x : Service W). PlanStore.get plan_id x.plans) same
    | inr (p, there, _, ends) ↦
        ap (λ (x : Service W). PlanStore.get plan_id x.plans) ends
        ∙ ap (PlanStore.get plan_id) (plans-reject_found j reason s)
        ∙ KeepsChange-other j plan_id (PlanStore.get plan_id s.plans)
            (rejected (o.now s.outer) reason) other (λ _. refl) s refl
  ]

  approve-Reach :
      (plan_id : String) (a : Approval) (s : Service W) (p : PlanRecord)
      → PlanStore.get plan_id s.plans ≡ some p
      → HasStatus plan_id (λ later. p.status ⟶* later) (approve_plan o models plan_id a s).1
  unfolding approve_plan
  approve-Reach plan_id a s p there =
      rw (there, approve_plan)
        (Reach-follow o models plan_id a p (admit o.ex.to_text a p) s there
          (Starts-admit o.ex.to_text a p))

  reject-Reach :
      (plan_id : String) (reason : Option String) (s : Service W) (p : PlanRecord)
      → PlanStore.get plan_id s.plans ≡ some p
      → HasStatus plan_id (λ later. p.status ⟶* later) (reject_plan o plan_id reason s).1
  reject-Reach plan_id reason s p there = elim (reject-cases plan_id reason s) [
    | inl same ↦ (p, ap (λ (x : Service W). PlanStore.get plan_id x.plans) same ∙ there, here)
    | inr (p', there', not_done, ends) ↦
        let f = rejected (o.now s.outer) reason in
        let (q, found, st) =
          HasStatus-change plan_id f "rejected" s (reject_plan o plan_id reason s).1.plans
            (λ _. refl) (λ _. refl) (p, there, tt)
            (ap (λ (x : Service W). x.plans) ends ∙ plans-reject_found plan_id reason s) in
        let same : p' ≡ p = ground arith in
        (q, found, next here (reject (ground (arith, ap (λ (x : PlanRecord). x.status) same)) st))
  ]

  own-Reach :
      (c : Call) (s : Service W) (p : PlanRecord)
      → PlanStore.get (target_id c) s.plans ≡ some p
      → HasStatus (target_id c) (λ later. p.status ⟶* later) (call c s)
  own-Reach (approves plan_id a) s p there = approve-Reach plan_id a s p there
  own-Reach (rejects plan_id reason) s p there = reject-Reach plan_id reason s p there

  call-Reach :
      (c : Call) (plan_id : String) (s : Service W) (p : PlanRecord)
      → PlanStore.get plan_id s.plans ≡ some p
      → HasStatus plan_id (λ later. p.status ⟶* later) (call c s)
  call-Reach c plan_id s p there = elim (Bool-cases (str_eq (target_id c) plan_id)) [
    | inr other ↦ (p, call_other c plan_id s other ∙ there, here)
    | inl same ↦
        let e = (eq_iff (target_id c) plan_id).0 same in
        subst (λ id. HasStatus id (λ later. p.status ⟶* later) (call c s)) e
          (own-Reach c s p (subst (λ id. PlanStore.get id s.plans ≡ some p) (sym e) there))
  ]

  -- Whatever calls of `approve_plan` and `reject_plan` are made, of one plan and of others, with
  -- whatever payloads, and however the actions, the repairs and the operator's cancels turn out: a
  -- stored plan stays stored, and its status moves along the diagram. It is approved or started only if
  -- it was not rejected, running or executed; it is executed or failed only after it was started; and it
  -- is rejected unless it was executed.
  pub status_follows :
      (calls : List Call) (plan_id : String) (s : Service W) (p : PlanRecord)
      → PlanStore.get plan_id s.plans ≡ some p
      → HasStatus plan_id (λ later. p.status ⟶* later) (call_all calls s)
  status_follows [] plan_id s p there = (p, there, here)
  status_follows (c ∷ calls) plan_id s p there =
      let (q, there', first) = call-Reach c plan_id s p there in
      let (r, there'', rest) = status_follows calls plan_id (call c s) q there' in
      (r, there'', ⟶*-trans first rest)

  approve-executed :
      (plan_id : String) (a : Approval) (s : Service W) (p : PlanRecord)
      → PlanStore.get plan_id s.plans ≡ some p
      → p.status ≡ "executed"
      → (approve_plan o models plan_id a s).1 ≡ s
  unfolding approve_plan
  approve-executed plan_id a s p there done =
      let (text, verdict) = admit-executed o.ex.to_text a p done in
      rw (there, approve_plan)
        (elim (Option-cases text) [
          | inl silent ↦ rw verdict (rw silent refl)
          | inr (x, says) ↦ rw verdict (rw says refl)
        ])

  executed-call :
      (c : Call) (s : Service W) (p : PlanRecord)
      → PlanStore.get (target_id c) s.plans ≡ some p
      → p.status ≡ "executed"
      → call c s ≡ s
  executed-call (approves plan_id a) s p there done = approve-executed plan_id a s p there done
  executed-call (rejects plan_id reason) s p there done = elim (reject-cases plan_id reason s) [
    | inl same ↦ same
    | inr (p', there', not_done, _) ↦
        let same : p' ≡ p = ground arith in
        absurd (
          ground (arith, ap (λ (x : PlanRecord). x.status) same, done, eq_iff p'.status "executed"))
  ]

  -- An executed plan is final: no call of `approve_plan` or `reject_plan`, of this plan or another,
  -- changes its row, so that it is never run again.
  pub executed_is_final :
      (calls : List Call) (plan_id : String) (s : Service W) (p : PlanRecord)
      → PlanStore.get plan_id s.plans ≡ some p
      → p.status ≡ "executed"
      → PlanStore.get plan_id (call_all calls s).plans ≡ some p
  executed_is_final [] plan_id s p there done = there
  executed_is_final (c ∷ calls) plan_id s p there done =
      executed_is_final calls plan_id (call c s) p
        (elim (Bool-cases (str_eq (target_id c) plan_id)) [
          | inr other ↦ call_other c plan_id s other ∙ there
          | inl same ↦
              let e = (eq_iff (target_id c) plan_id).0 same in
              let own = subst (λ id. PlanStore.get id s.plans ≡ some p) (sym e) there in
              ap (λ (x : Service W). PlanStore.get plan_id x.plans) (executed-call c s p own done)
              ∙ there
        ])
        done
