-- ===== src/Plans/PlanStore/Follows.antt =====
-- Later versions of a plan.
use nova_adapt.Base.{ℕ, String, ◌≡◌, refl, sym, subst, ◌∙◌, Option, none, some, string_eq}
use nova_adapt.Plans.PlanStore.{
  PlanRecord, Progress, Report, executing, progressed, failed, approved, rejected, coalesce,
}

-- A time that is there stays the same.
abbrev pub KeepsTime : Option ℕ → Option ℕ → Type 0
KeepsTime none later = Unit
KeepsTime (some t) later = later ≡ some t

KeepsTime-refl : (t : Option ℕ) → KeepsTime t t
KeepsTime-refl none = tt
KeepsTime-refl (some t) = refl

KeepsTime-trans : (s t u : Option ℕ) → KeepsTime s t → KeepsTime t u → KeepsTime s u
KeepsTime-trans none t u h k = tt
KeepsTime-trans (some x) t u h k = subst (λ y. KeepsTime y u) h k

KeepsTime-coalesce : (t : Option ℕ) (now : ℕ) → KeepsTime t (coalesce t now)
KeepsTime-coalesce none now = tt
KeepsTime-coalesce (some t) now = refl

-- `q` is a later version of the plan `p`: the same actions for the same objective, and the times at
-- which it was first approved and first started do not change.
pub record Follows (p q : PlanRecord) : Type 0 where
  pub id : q.id ≡ p.id
  pub objective : q.objective ≡ p.objective
  pub actions : q.actions ≡ p.actions
  pub created_at : q.created_at ≡ p.created_at
  pub approved_at : KeepsTime p.approved_at q.approved_at
  pub started_at : KeepsTime p.execution_started_at q.execution_started_at

pub Follows-refl : (p : PlanRecord) → Follows p p
Follows-refl p = record {
  id = refl;
  objective = refl;
  actions = refl;
  created_at = refl;
  approved_at = KeepsTime-refl p.approved_at;
  started_at = KeepsTime-refl p.execution_started_at;
}

pub Follows-same :
    (p q : PlanRecord)
    → q.id ≡ p.id
    → q.objective ≡ p.objective
    → q.actions ≡ p.actions
    → q.created_at ≡ p.created_at
    → q.approved_at ≡ p.approved_at
    → q.execution_started_at ≡ p.execution_started_at
    → Follows p q
Follows-same p q i o a c u s = record {
  id = i;
  objective = o;
  actions = a;
  created_at = c;
  approved_at = subst (KeepsTime p.approved_at) (sym u) (KeepsTime-refl p.approved_at);
  started_at =
      subst (KeepsTime p.execution_started_at) (sym s) (KeepsTime-refl p.execution_started_at);
}

pub Follows-trans : (p q r : PlanRecord) → Follows p q → Follows q r → Follows p r
Follows-trans p q r f g = record {
  id = g.id ∙ f.id;
  objective = g.objective ∙ f.objective;
  actions = g.actions ∙ f.actions;
  created_at = g.created_at ∙ f.created_at;
  approved_at =
      KeepsTime-trans p.approved_at q.approved_at r.approved_at f.approved_at g.approved_at;
  started_at =
      KeepsTime-trans p.execution_started_at q.execution_started_at r.execution_started_at
        f.started_at g.started_at;
}

pub Follows-executing : (now total : ℕ) (p : PlanRecord) → Follows p (executing now total p)
Follows-executing now total p = record {
  id = refl;
  objective = refl;
  actions = refl;
  created_at = refl;
  approved_at = KeepsTime-coalesce p.approved_at now;
  started_at = KeepsTime-coalesce p.execution_started_at now;
}

pub Follows-approved :
    (now : ℕ) (status : String) (g : Report) (p : PlanRecord) → Follows p (approved now status g p)
Follows-approved now status g p = record {
  id = refl;
  objective = refl;
  actions = refl;
  created_at = refl;
  approved_at = KeepsTime-coalesce p.approved_at now;
  started_at = KeepsTime-refl p.execution_started_at;
}

pub Follows-progressed : (now : ℕ) (g : Progress) (p : PlanRecord) → Follows p (progressed now g p)
Follows-progressed now g p = Follows-same p (progressed now g p) refl refl refl refl refl refl

pub Follows-failed :
    (now : ℕ) (error : String) (g : Report) (p : PlanRecord) → Follows p (failed now error g p)
Follows-failed now error g p = Follows-same p (failed now error g p) refl refl refl refl refl refl

pub Follows-rejected :
    (now : ℕ) (reason : Option String) (p : PlanRecord) → Follows p (rejected now reason p)
Follows-rejected now reason p = Follows-same p (rejected now reason p) refl refl refl refl refl refl
