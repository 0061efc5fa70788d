-- ===== src/Plans/PlanStore/Laws.antt =====
-- What each operation that changes a plan does to that plan and to the others.
use nova_adapt.Base.{
  String, ◌≡◌, refl, ap, none, some, if◌then◌else◌, arith, str_eq, eq_iff, string_eq, Option-cases,
  inl, inr,
}
use nova_adapt.Base.Table
use nova_adapt.Plans.PlanStore.{PlanRecord, Plans, key, change, get}

abbrev pub KeepsId : (PlanRecord → PlanRecord) → Type 0
KeepsId f = (p : PlanRecord) → (f p).id ≡ p.id

-- A missing plan is left missing, and nothing else is written.
pub change_missing :
    (plan_id : String) (f : PlanRecord → PlanRecord) (plans : Plans)
    → get plan_id plans ≡ none
    → change plan_id f plans (get plan_id plans) ≡ (none, plans)
unfolding change
change_missing plan_id f plans gone = rw gone refl

pub get-change :
    (plan_id j : String) (f : PlanRecord → PlanRecord) (plans : Plans)
    → KeepsId f
    → get j (change plan_id f plans (get plan_id plans)).1 ≡ (
        if str_eq plan_id j
        then elim (get j plans) [ none ↦ none | some p ↦ some (f p) ]
        else get j plans)
unfolding change get
get-change plan_id j f plans keep =
    let found = Table.select-update key plan_id j f plans keep in
    elim (Option-cases (Table.select key plan_id plans)) [
      | inl gone ↦
          rw gone (ground (arith, eq_iff plan_id j, gone, ap (λ k. Table.select key k plans)))
      | inr (p, there) ↦ rw there (elim (Option-cases (Table.select key j plans)) [
        | inl missing ↦ rw missing (ground (arith, found, missing))
        | inr (q, has) ↦ rw has (ground (arith, found, has))
      ])
    ]

-- The plan that is changed is there, changed.
pub get-changed :
    (plan_id : String) (f : PlanRecord → PlanRecord) (plans : Plans) (p : PlanRecord)
    → KeepsId f
    → get plan_id plans ≡ some p
    → get plan_id (change plan_id f plans (get plan_id plans)).1 ≡ some (f p)
get-changed plan_id f plans p keep there =
    ground (arith, get-change plan_id plan_id f plans keep, there, eq_iff plan_id plan_id)
