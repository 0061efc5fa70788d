-- ===== src/Gateway/Queue/Budget.antt =====
-- The retry budget: how often a job can still be handed out.
use nova_adapt.Base.{
  ℕ, ◌+◌, ◌-◌, ◌≤◌, ◌<◌, String, ◌≡◌, true, Option, none, some, arith, string_eq, str_eq,
  if◌then◌else◌, max, leb, Bool, ◌||◌, Bool-cases, inl, inr,
}
use nova_adapt.Gateway.Queue.{JobRecord, Queue, select_job, claimable, running, failed_job}

abbrev pub is_waiting : String → Bool
is_waiting status = str_eq status "queued" || str_eq status "retry_wait"

-- A job that waits has attempts left.
abbrev pub InBudget : ℕ → JobRecord → Type 0
InBudget limit r = is_waiting r.status ≡ true → r.attempts < max 1 limit

abbrev pub left_of : ℕ → Option JobRecord → ℕ
left_of limit none = 0
left_of limit (some r) = if is_waiting r.status then max 1 limit - r.attempts else 0

abbrev pub left : ℕ → String → Queue → ℕ
left limit id q = left_of limit (select_job id q)

pub left-le : (limit : ℕ) (id : String) (q : Queue) → left limit id q ≤ max 1 limit
left-le limit id q = ground arith

pub claimable-waits :
    (now : ℕ) (r : JobRecord) → claimable now r ≡ true → is_waiting r.status ≡ true
claimable-waits now r h = ground arith

pub InBudget-running : (limit now : ℕ) (r : JobRecord) → InBudget limit (running now r)
InBudget-running limit now r h = cc

pub InBudget-failed_job :
    (limit now delay attempts : ℕ) (r : JobRecord)
    → InBudget limit (failed_job now delay limit attempts r)
InBudget-failed_job limit now delay attempts r = elim (Bool-cases (leb (max 1 limit) attempts)) [
  | inl spent ↦ rw spent (λ h. cc)
  | inr more ↦ rw more (λ h. ground arith)
]

pub left_of-failed_job :
    (limit now delay : ℕ) (r x : JobRecord)
    → r.attempts < max 1 limit
    → left_of limit (some (failed_job now delay limit (r.attempts + 1) x)) + 1
      ≤ max 1 limit - r.attempts
left_of-failed_job limit now delay r x h = elim (Bool-cases (leb (max 1 limit) (r.attempts + 1))) [
  | inl spent ↦ rw spent (ground arith)
  | inr more ↦ rw more (ground arith)
]
