-- ===== src/Models/Router/Decompose.antt =====
-- `_chat_decompose` and `_execute_decompose_subtask` of shared/novaadapt_shared/model_router.py, between
-- the plan that was parsed and the synthesis: the batches of subtasks and their reviews. The calls of
-- `_chat_single` and `_parse_review` are parameters, and so is the order in which the futures of a
-- batch complete. Costs and the transcript are left out.
-- A subtask sees the outputs from before its batch. In the code the threads of a batch share the dictionary
-- of the outputs; but a subtask reads there only what it depends on, which is complete before its batch
-- begins, and which the batch could only write anew if two subtasks bore one identifier.
pub mod Ends
pub mod Chat
pub mod Dependencies
use Prim.Native.String
use nova_adapt.Base.{
  ℕ, zero, suc, ◌+◌, String, Bool, true, false, not, ◌&&◌, ◌||◌, Option, none, some, List, [], ◌∷◌,
  ◌++◌, map, if◌then◌else◌, str_eq, any, all, filter, take, get_or, length, is_some,
}
use nova_adapt.Base.Decimal.{show}
use nova_adapt.Base.Text.{strip, is_empty, or_else}
use nova_adapt.Base.Exec.{Result, ok, raised, Error, value_error}

-- An item of the list that `_parse_subtasks` returns.
pub record Subtask : Type 0 where
  pub id : String
  pub objective : String
  pub model : String
  pub agent : String
  pub depends_on : List String
  pub review_with : String

-- `output_item`
pub record Output : Type 0 where
  pub id : String
  pub objective : String
  pub model : String
  pub agent : String
  pub depends_on : List String
  pub output : String

-- An entry of `dependency_payload`.
pub record Dependency : Type 0 where
  pub id : String
  pub objective : String
  pub output : String

-- What the messages to a model are made of: a subtask to solve, or an output to review.
pub data Request : Type 0 where
  solve :
      (subtask_id agent_role subtask_objective : String) (dependencies : List Dependency)
      (feedback : String)
      → Request
  review : (subtask_id agent_role subtask_objective output : String) → Request

-- What `_chat_single` returns, as far as it is read here.
pub record Answer : Type 0 where
  pub model_name : String
  pub content : String

-- What `_parse_review` returns.
pub record Review : Type 0 where
  pub approved : Bool
  pub feedback : String

-- The calls of the models, the parser of reviews, and the order of completion.
pub record Crew : Type 0 where
  pub chat : Request → String → Result Answer
  pub parse_review : String → Review
  pub completion : List Subtask → List Subtask
  pub error_text : Error → String

-- `text in names`
abbrev pub is_in : String → List String → Bool
is_in s names = any (λ name. str_eq name s) names

-- `[str(dep).strip() for dep in … if str(dep).strip()]`
unfoldable pub clean : List String → List String
clean [] = []
clean (dep ∷ deps) =
    let rest = clean deps in let name = strip dep in if is_empty name then rest else name ∷ rest

-- `completed_outputs[dep]`: of two outputs with one identifier, the later.
unfoldable pub completed : String → List Output → Option Output
completed dep [] = none
completed dep (o ∷ outputs) = elim (completed dep outputs) [
  | some later ↦ some later
  | none ↦ if str_eq o.id dep then some o else none
]

abbrev dependency : String → Output → Dependency
dependency dep o = record { id = dep; objective = o.objective; output = o.output }

-- `dependency_payload`
unfoldable pub dependency_payload : List String → List Output → List Dependency
unfolding completed
dependency_payload [] outputs = []
dependency_payload (dep ∷ deps) outputs =
    let rest = dependency_payload deps outputs in
    elim (completed dep outputs) [ none ↦ rest | some o ↦ dependency dep o ∷ rest ]

module _ (crew : Crew) (execution_pool : List String) where
  -- The first model of the pool; the pool is not empty.
  abbrev first_model : List String → String
  first_model [] = ""
  first_model (name ∷ names) = name

  abbrev chosen_model : Subtask → String
  chosen_model t =
      let requested = strip t.model in
      if is_in requested execution_pool then requested else first_model execution_pool

  abbrev reviewer : Subtask → Option String
  reviewer t =
      let name = strip t.review_with in
      if is_in name execution_pool && not (is_empty name) then some name else none

  -- `str(subtask.get("agent") or subtask.get("model") or subtask_id).strip()`
  abbrev pub agent_role : String → Subtask → String
  agent_role subtask_id t = strip (or_else t.agent (or_else t.model subtask_id))

  abbrev output_of : String → Subtask → Answer → Output
  output_of subtask_id t answer = record {
    id = subtask_id;
    objective = strip t.objective;
    model = answer.model_name;
    agent = agent_role subtask_id t;
    depends_on = clean t.depends_on;
    output = answer.content;
  }

  abbrev ask_again : Review → String
  ask_again r = or_else (strip r.feedback) "Tighten the answer."

  ask_solver : Subtask → String → List Dependency → String → Result Answer
  ask_solver t subtask_id dependencies feedback =
      crew.chat
        (solve subtask_id (agent_role subtask_id t) (strip t.objective) dependencies feedback)
        (chosen_model t)

  ask_reviewer : Subtask → String → Answer → String → Result Answer
  ask_reviewer t subtask_id answer model =
      crew.chat (review subtask_id (agent_role subtask_id t) (strip t.objective) answer.content)
        model

  -- The loop of `_execute_decompose_subtask`: `left` reviews may still send the output back.
  unfoldable pub attempts :
      (left : ℕ) → Subtask → String → List Dependency → (feedback : String) → Result Output
  unfolding ask_solver ask_reviewer
  attempts zero t subtask_id dependencies feedback =
      elim (ask_solver t subtask_id dependencies feedback) [
        | raised e ↦ raised e
        | ok answer ↦ elim (reviewer t) [
          | none ↦ ok (output_of subtask_id t answer)
          | some model ↦ elim (ask_reviewer t subtask_id answer model) [
            | raised e ↦ raised e
            | ok verdict ↦ ok (output_of subtask_id t answer)
          ]
        ]
      ]
  attempts (suc left) t subtask_id dependencies feedback =
      elim (ask_solver t subtask_id dependencies feedback) [
        | raised e ↦ raised e
        | ok answer ↦ elim (reviewer t) [
          | none ↦ ok (output_of subtask_id t answer)
          | some model ↦ elim (ask_reviewer t subtask_id answer model) [
            | raised e ↦ raised e
            | ok verdict ↦ elim (crew.parse_review verdict.content).approved [
              | true ↦ ok (output_of subtask_id t answer)
              | false ↦
                  attempts left t subtask_id dependencies
                    (ask_again (crew.parse_review verdict.content))
            ]
          ]
        ]
      ]

  -- `_execute_decompose_subtask`
  unfoldable pub execute_subtask : ℕ → Subtask → List Output → Result Output
  unfolding attempts dependency_payload clean
  execute_subtask review_retries t outputs =
      if is_empty (strip t.objective)
      then raised (value_error "missing objective")
      else attempts review_retries t (or_else (strip t.id) "subtask")
          (dependency_payload (clean t.depends_on) outputs) ""

-- What the loop of `_chat_decompose` has come to: `subtask_outputs`, `errors` without the prefix, the
-- set `processed`, and `parallel_batches`.
pub record Progress : Type 0 where
  pub outputs : List Output
  pub errors : List (String × String)
  pub processed : List String
  pub batches : List (List String)

-- How the loop ends: all subtasks are processed, or the pending ones wait for each other.
pub data Ended : Type 0 where
  finished : Progress → Ended
  unresolved : List String → Progress → Ended

-- `processed.add(subtask_id)`
abbrev pub add_to : String → List String → List String
add_to id names = if is_in id names then names else id ∷ names

abbrev pub is_ready : List Output → Subtask → Bool
is_ready outputs t = all (λ dep. is_some (completed dep outputs)) (clean t.depends_on)

abbrev pub task_id : Subtask → String
task_id t = strip t.id

module _ (crew : Crew) (execution_pool : List String) (parallel_workers review_retries : ℕ) where
  abbrev pub done_id : Subtask → Progress → String
  done_id t g = or_else (task_id t) (String.◌++◌ "s" (show (length g.processed + 1)))

  outcome : String → Result Output → Progress → Progress
  outcome id (ok o) g = record g { outputs = g.outputs ++ record o { id = id } ∷ [] }
  outcome id (raised e) g = record g { errors = (id, crew.error_text e) ∷ g.errors }

  -- One completed future; the subtask saw the outputs that were there when the batch began.
  unfoldable pub complete_one : List Output → Subtask → Progress → Progress
  unfolding outcome execute_subtask
  complete_one before t g =
      let id = done_id t g in
      let g' = outcome id (execute_subtask crew execution_pool review_retries t before) g in
      record g' { processed = add_to id g.processed }

  unfoldable pub complete_all : List Output → List Subtask → Progress → Progress
  unfolding complete_one
  complete_all before [] g = g
  complete_all before (t ∷ ts) g = complete_all before ts (complete_one before t g)

  abbrev pub left_of : List Subtask → Progress → List Subtask
  left_of pending g = filter (λ t. not (is_in (task_id t) g.processed)) pending

  abbrev pub run_batch : List Subtask → Progress → Progress
  run_batch batch g =
      complete_all g.outputs (crew.completion batch)
        (record g { batches = g.batches ++ map (λ t. t.id) batch ∷ [] })

  -- The `while` loop; `none` means that the fuel ran out.
  unfoldable pub run_batches : ℕ → List Subtask → Progress → Option Ended
  unfolding complete_all
  run_batches zero pending g = none
  run_batches (suc fuel) [] g = some (finished g)
  run_batches (suc fuel) (t ∷ ts) g = elim (filter (is_ready g.outputs) (t ∷ ts)) [
    | [] ↦ some (unresolved (map task_id (t ∷ ts)) g)
    | r ∷ rs ↦
        let g' = run_batch (take parallel_workers (r ∷ rs)) g in
        run_batches fuel (left_of (t ∷ ts) g') g'
  ]

  abbrev pub begin : Progress
  begin = record { outputs = []; errors = []; processed = []; batches = [] }
