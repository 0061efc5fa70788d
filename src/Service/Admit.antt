-- ===== src/Service/Admit.antt =====
-- The tests of `approve_plan` of core/novaadapt_core/service.py, and its choice of the actions.
use nova_adapt.Base.{
  ℕ, zero, suc, ◌+◌, String, Bool, not, ◌&&◌, Option, none, some, List, [], ◌∷◌, if◌then◌else◌,
  str_eq, max, length, get_or, get_elem?, take,
}
use nova_adapt.Base.Text.{strip}
use nova_adapt.Base.Lower.{lower}
use nova_adapt.Base.Json.{Value, Fields, str, get}
use nova_adapt.Plans.PlanStore.{PlanRecord}
use nova_adapt.Plans.Policy.{is_member}
use nova_adapt.Service.Actions.{Options}

-- The payload of `approve_plan`, after `coerce_bool`, `int`, `float` and `_as_name_list`, with a negative
-- number read as 0, as `max` does, and the plan's own entries where the payload has nothing on the
-- repair; `max_actions` is `none` where the payload has none.
pub record Approval : Type 0 where
  pub execute : Bool
  pub max_actions : Option ℕ
  pub options : Options
  pub retry_failed_only : Bool
  pub auto_repair_attempts : ℕ
  pub repair_strategy : String
  pub repair_model : Option String
  pub repair_candidates : List String
  pub repair_fallbacks : List String

-- What `approve_plan` does before it changes anything: it refuses, it has nothing to do, it only
-- writes the approval down, or it runs actions.
pub data Verdict : Type 0 where
  refuse : String → Verdict
  nothing approve_only : Verdict
  run : List Fields → Verdict

module _ (to_text : Value → String) where
  -- `str(result.get("status", "")).strip().lower() in {"failed", "blocked"}`
  unfoldable pub to_retry : Fields → Bool
  to_retry result =
      is_member (lower (strip (to_text (get_or (str "") (get "status" result)))))
        ("failed" ∷ "blocked" ∷ [])

  -- `retry_indexes`, from the place `idx` on: a loop over the results, with at most `n` actions.
  unfoldable pub retry_indexes : (idx n : ℕ) → List Fields → List ℕ
  unfolding to_retry
  retry_indexes idx n [] = []
  retry_indexes idx zero (result ∷ results) = []
  retry_indexes idx (suc n) (result ∷ results) =
      let rest = retry_indexes (idx + 1) n results in if to_retry result then idx ∷ rest else rest

  -- `[actions[idx] for idx in idxs]`
  unfoldable pub pick : List Fields → List ℕ → List Fields
  pick actions [] = []
  pick actions (idx ∷ idxs) = elim (get_elem? actions idx) [
    | none ↦ pick actions idxs
    | some a ↦ a ∷ pick actions idxs
  ]

  -- `actions[: max(1, max_actions)]`, where `max_actions` is by default the number of the plan's actions
  abbrev pub capped : Approval → PlanRecord → List Fields → List Fields
  capped a p actions = take (max 1 (get_or (length p.actions) a.max_actions)) actions

  unfoldable pub retry_some : Approval → PlanRecord → List ℕ → Verdict
  unfolding pick
  retry_some a p [] = refuse "No failed or blocked actions available for retry"
  retry_some a p (idx ∷ idxs) = run (capped a p (pick p.actions (idx ∷ idxs)))

  unfoldable pub retry_prior : Approval → PlanRecord → Option (List Fields) → Verdict
  unfolding retry_some retry_indexes
  retry_prior a p none = refuse "Plan has no prior execution results to retry"
  retry_prior a p (some results) = retry_some a p (retry_indexes 0 (length p.actions) results)

  -- The tests of `approve_plan`, in its order.
  unfoldable pub admit : Approval → PlanRecord → Verdict
  unfolding retry_prior
  admit a p =
      if str_eq p.status "rejected"
      then refuse "Plan already rejected"
      else if str_eq p.status "executing"
      then refuse "Plan is already executing"
      else if str_eq p.status "executed"
      then (if a.retry_failed_only
          then refuse "Plan is already executed and has no failed actions to retry"
          else nothing)
      else if a.retry_failed_only && not (str_eq p.status "failed")
      then refuse "Plan must be failed to retry failed actions"
      else if a.retry_failed_only && not a.execute
      then refuse "'retry_failed_only' requires execute=true"
      else if not a.execute
      then approve_only
      else if a.retry_failed_only
      then retry_prior a p p.execution_results
      else run (capped a p p.actions)
