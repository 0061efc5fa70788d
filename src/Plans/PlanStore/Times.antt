-- ===== src/Plans/PlanStore/Times.antt =====
-- What a plan keeps, whatever is done with it.
use nova_adapt.Base.{
  ℕ, String, false, ◌≡◌, sym, subst, Option, some, List, [], ◌∷◌, arith, str_eq, eq_iff, string_eq,
  Option-cases, inl, inr, Bool-cases,
}
use nova_adapt.Base.Table
use nova_adapt.Base.Table.Where.{select-delete_where}
use nova_adapt.Plans.PlanStore.{
  PlanRecord, NewPlan, Plans, Progress, Report, key, get, create, change, mark_executing,
  update_execution_progress, fail_execution, approve, reject, executing, progressed, failed,
  approved, rejected, new_record, prune_older_than, is_old,
}
use nova_adapt.Plans.PlanStore.Laws.{get-change}
use nova_adapt.Plans.PlanStore.Follows.{
  Follows, Follows-refl, Follows-progressed, Follows-failed, Follows-rejected, Follows-trans,
  Follows-executing, Follows-approved,
}

-- A call of a method that writes plans.
pub data Operation : Type 0 where
  creates : ℕ → String → NewPlan → Operation
  starts : ℕ → String → ℕ → Operation
  progresses : ℕ → String → Progress → Operation
  fails : ℕ → String → String → Report → Operation
  approves : ℕ → String → String → Report → Operation
  rejects : ℕ → String → Option String → Operation

abbrev pub apply : Operation → Plans → Plans
apply (creates now fresh payload) plans = (create now fresh payload plans).1
apply (starts now plan_id total) plans = (mark_executing now plan_id total plans).1
apply (progresses now plan_id g) plans = (update_execution_progress now plan_id g plans).1
apply (fails now plan_id error g) plans = (fail_execution now plan_id error g plans).1
apply (approves now plan_id status g) plans = (approve now plan_id status g plans).1
apply (rejects now plan_id reason) plans = (reject now plan_id reason plans).1

abbrev pub apply_all : List Operation → Plans → Plans
apply_all [] plans = plans
apply_all (op ∷ ops) plans = apply_all ops (apply op plans)

-- The plan `plan_id` is there, in a later version than `p`.
abbrev pub Has : String → PlanRecord → Plans → Type 0
Has plan_id p plans = (q : PlanRecord) × (get plan_id plans ≡ some q) × Follows p q

module _ (plan_id : String) (p : PlanRecord) where
  change-Has :
      (j : String) (f : PlanRecord → PlanRecord) (plans : Plans)
      → ((q : PlanRecord) → Follows q (f q))
      → Has plan_id p plans
      → Has plan_id p (change j f plans (get j plans)).1
  change-Has j f plans follows (q, there, later) =
      let found = get-change j plan_id f plans (λ x. (follows x).id) in
      elim (Bool-cases (str_eq j plan_id)) [
        | inl mine ↦
            (f q, ground (arith, found, mine, there), Follows-trans p q (f q) later (follows q))
        | inr other ↦ (q, ground (arith, found, other, there), later)
      ]

  create-Has :
      (now : ℕ) (fresh : String) (payload : NewPlan) (plans : Plans)
      → Has plan_id p plans
      → Has plan_id p (create now fresh payload plans).1
  unfolding create get
  create-Has now fresh payload plans (q, there, later) =
      let r = new_record now fresh payload in
      elim (Option-cases (Table.insert key r plans)) [
        | inl taken ↦ rw taken (q, there, later)
        | inr (plans', added) ↦ rw added (elim (Bool-cases (str_eq r.id plan_id)) [
          | inr other ↦ (
            q,
            ground (arith, Table.select-insert key plan_id r plans added, other, there),
            later,
          )
          | inl same ↦
              let old : Table.select key r.id plans ≡ some q =
                subst (λ k. Table.select key k plans ≡ some q) (sym ((eq_iff r.id plan_id).0 same))
                  there in
              absurd (ground (arith, Table.insert-taken key r q plans old))
        ])
      ]

  apply-Has :
      (op : Operation) (plans : Plans) → Has plan_id p plans → Has plan_id p (apply op plans)
  unfolding mark_executing update_execution_progress fail_execution approve reject
  apply-Has (creates now fresh payload) plans h = create-Has now fresh payload plans h
  apply-Has (starts now j total) plans h =
      change-Has j (executing now total) plans (Follows-executing now total) h
  apply-Has (progresses now j g) plans h =
      change-Has j (progressed now g) plans (Follows-progressed now g) h
  apply-Has (fails now j error g) plans h =
      change-Has j (failed now error g) plans (Follows-failed now error g) h
  apply-Has (approves now j status g) plans h =
      change-Has j (approved now status g) plans (Follows-approved now status g) h
  apply-Has (rejects now j reason) plans h =
      change-Has j (rejected now reason) plans (Follows-rejected now reason) h

  apply_all-Has :
      (ops : List Operation) (plans : Plans)
      → Has plan_id p plans
      → Has plan_id p (apply_all ops plans)
  apply_all-Has [] plans h = h
  apply_all-Has (op ∷ ops) plans h = apply_all-Has ops (apply op plans) (apply-Has op plans h)

  -- A stored plan is there after any calls of the writing methods but `prune_older_than`, with the same
  -- objective and actions and the same time of creation; the time at which it was first approved and
  -- the time at which it was first started are never overwritten.
  pub plan_stays :
      (ops : List Operation) (plans : Plans)
      → get plan_id plans ≡ some p
      → Has plan_id p (apply_all ops plans)
  plan_stays ops plans there = apply_all-Has ops plans (p, there, Follows-refl p)

  -- `prune_older_than` removes no plan that still waits, runs or has another unfinished status, and no
  -- plan that was written within the retention time.
  pub prune_spares :
      (now older_than : ℕ) (plans : Plans)
      → get plan_id plans ≡ some p
      → is_old now older_than p ≡ false
      → get plan_id (prune_older_than now older_than plans).1 ≡ some p
  unfolding prune_older_than get
  prune_spares now older_than plans there spared =
      ground
        (arith, there, select-delete_where key (is_old now older_than) plan_id plans p there spared)
