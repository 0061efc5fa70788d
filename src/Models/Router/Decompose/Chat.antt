-- ===== src/Models/Router/Decompose/Chat.antt =====
-- `_chat_decompose` of shared/novaadapt_shared/model_router.py around its loop: the plan, the fallback to
-- a single chat, and the synthesis. The planner's answer, parsed, is an argument.
use Prim.Native.String
use nova_adapt.Base.{
  ℕ, ◌+◌, ◌<◌, String, Bool, ◌≡◌, refl, Option, none, some, List, [], ◌∷◌, arith, length, ltb, any,
  All, if◌then◌else◌,
}
use nova_adapt.Base.Exec.{Result, ok, raised, runtime_error}
use nova_adapt.Models.Router.Decompose.{
  Subtask, Output, Answer, Crew, Progress, Ended, finished, unresolved, run_batches, begin,
}
use nova_adapt.Models.Router.Decompose.Ends.{Named, decompose_ends}

-- `", ".join(unresolved)`
join_comma : List String → String
join_comma [] = ""
join_comma (s ∷ []) = s
join_comma (s ∷ (t ∷ rest)) = String.◌++◌ s (String.◌++◌ ", " (join_comma (t ∷ rest)))

-- The result, without the models' names, costs and transcript; `fallback` is the reason of a fallback.
pub record Decomposed : Type 0 where
  pub content : String
  pub fallback : Option String
  pub planner_error : Option String
  pub subtasks_total : ℕ
  pub subtasks_succeeded : ℕ
  pub parallel_batches : ℕ

module _ (crew : Crew) (execution_pool : List String) (parallel_workers review_retries : ℕ)
    (chat_single : Result Answer) (synthesize : List Output → Result Answer) where
  -- `_fallback`
  unfoldable pub fall_back :
      (reason planner_error : String) (total succeeded : ℕ) → Result Decomposed
  fall_back reason planner_error total succeeded = elim chat_single [
    | raised e ↦
        raised (runtime_error (String.◌++◌ "decompose fallback failed: " (crew.error_text e)))
    | ok answer ↦ ok (record {
      content = answer.content;
      fallback = some reason;
      planner_error = some planner_error;
      subtasks_total = total;
      subtasks_succeeded = succeeded;
      parallel_batches = 0;
    })
  ]

  synthesized : ℕ → Progress → Result Answer → Result Decomposed
  synthesized total g (raised e) = raised e
  synthesized total g (ok answer) = ok (record {
    content = answer.content;
    fallback = none;
    planner_error = none;
    subtasks_total = total;
    subtasks_succeeded = length g.outputs;
    parallel_batches = length g.batches;
  })

  -- The end, after the loop.
  unfoldable pub conclude : ℕ → Ended → Result Decomposed
  unfolding fall_back synthesized join_comma
  conclude total (unresolved ids g) =
      fall_back "invalid_plan"
        (String.◌++◌ "planner returned unresolved dependency cycle: " (join_comma ids)) total
        (length g.outputs)
  conclude total (finished g) =
      if ltb 0 (length g.outputs)
      then synthesized total g (synthesize g.outputs)
      else fall_back "subtasks_failed" "all subtasks failed" total 0

  -- `_chat_decompose`; `none` means that the loop's fuel ran out.
  unfoldable pub chat_decompose : Result (List Subtask) → Option (Result Decomposed)
  unfolding conclude run_batches
  chat_decompose (raised e) = some (fall_back "planner_failed" (crew.error_text e) 0 0)
  chat_decompose (ok []) = some (fall_back "invalid_plan" "planner returned no usable subtasks" 0 0)
  chat_decompose (ok (t ∷ ts)) =
      let total = length (t ∷ ts) in
      elim (run_batches crew execution_pool parallel_workers review_retries (total + 1) (t ∷ ts)
        (begin crew execution_pool parallel_workers review_retries)) [
          | none ↦ none
          | some e ↦ some (conclude total e)
        ]

  -- If some worker is allowed, no subtask of the plan has a blank identifier, and the order of completion
  -- loses and adds no subtask: `_chat_decompose` comes to an end on any plan, also one whose
  -- dependencies cannot be met, and whatever the models answer or raise; one round of its loop more than
  -- there are subtasks is enough.
  pub decompose_returns :
      (plan : List Subtask)
      → 0 < parallel_workers
      → ((p : Subtask → Bool) (ts : List Subtask) → any p (crew.completion ts) ≡ any p ts)
      → All (Named crew execution_pool parallel_workers review_retries) plan
      → (r : Result Decomposed) × (chat_decompose (ok plan) ≡ some r)
  unfolding chat_decompose
  decompose_returns [] positive completes named = (_, refl)
  decompose_returns (t ∷ ts) positive completes named =
      let total = length (t ∷ ts) in
      let (e, ends) =
        decompose_ends crew execution_pool parallel_workers review_retries positive completes
          (total + 1) (t ∷ ts) (begin crew execution_pool parallel_workers review_retries)
          (omega arith) named in
      (conclude total e, rw (ends, chat_decompose) refl)
