-- ===== src/Workflows/Engine.antt =====
-- `WorkflowEngine` of core/novaadapt_core/workflows/engine.py. Its state is the two stores; the second
-- is optional, as the constructor's argument is.
pub mod Step
pub mod Start
pub mod Progress
pub mod Terminal
use Prim.Native.String.{◌++◌}
use nova_adapt.Base.{
  ℕ, zero, suc, ◌+◌, String, ◌≡◌, Bool, true, false, ◌||◌, not, Option, none, some, List, [], ◌∷◌,
  if◌then◌else◌, get_or, get_elem?, set, length, ltb, leb, ◌==◌, str_eq, arith,
}
use nova_adapt.Base.Text.{is_empty}
use nova_adapt.Base.Decimal.{show}
use nova_adapt.Base.Json.{Value, bool, num, str, obj, Fields, end, field, get, put, set_default}
use nova_adapt.Base.Exec.{
  Result, ok, raised, Exec, pure, raise, ◌>>=◌, ◌>>◌, value_error, type_error,
}
use nova_adapt.Workflows.Store
use nova_adapt.Workflows.Store.{WorkflowRecord}
use nova_adapt.Workflows.Checkpoints

pub record Engine : Type 0 where
  pub store : Store.Rows
  pub checkpoints : Option Checkpoints.Rows

-- `self.store.m(…)`
abbrev pub on_store : {A : Type 0} → Exec Store.Rows A → Exec Engine A
on_store m s = let (r, rows) = m s.store in (r, record s { store = rows })

save_checkpoint :
    ℕ
    → String
    → String
    → Fields
    → Option Checkpoints.Rows
    → Result (Unit {0}) × Option Checkpoints.Rows
save_checkpoint now workflow_id checkpoint_id payload none = (ok tt, none)
save_checkpoint now workflow_id checkpoint_id payload (some rows) =
    let (r, rows') = Checkpoints.save now workflow_id checkpoint_id payload rows in
    (elim r [ ok _ ↦ ok tt | raised e ↦ raised e ], some rows')

-- `_checkpoint`
pub checkpoint : ℕ → String → String → Fields → Exec Engine (Unit {0})
unfolding save_checkpoint
checkpoint now workflow_id checkpoint_id payload s =
    let (r, rows) = save_checkpoint now workflow_id checkpoint_id payload s.checkpoints in
    (r, record s { checkpoints = rows })

-- `if updated is not None: self._checkpoint(…)`, and `return updated`
pub checkpoint_updated :
    ℕ → String → Fields → Option WorkflowRecord → Exec Engine (Option WorkflowRecord)
unfolding checkpoint
checkpoint_updated now name payload none = pure none
checkpoint_updated now name payload (some r) = do
  checkpoint now r.workflow_id name payload
  pure (some r)

-- The end of each branch that writes: `updated = self.store.update(current.workflow_id, …)`, a
-- checkpoint of what was found, and `return updated`.
pub write_back :
    ℕ
    → WorkflowRecord
    → Option String
    → Option (List Fields)
    → Option Fields
    → Option String
    → String
    → Fields
    → Exec Engine (Option WorkflowRecord)
unfolding checkpoint_updated
write_back now current status steps context last_error name payload = do
  updated ← on_store (Store.update now current.workflow_id status steps context last_error)
  checkpoint_updated now name payload updated

-- `start`
unfoldable pub start :
    (now : ℕ) (fresh objective : String) (steps : List Fields) (context : Fields)
    (workflow_id : String)
    → Exec Engine WorkflowRecord
unfolding checkpoint
start now fresh objective steps context workflow_id = do
  let normalized = set_default "current_step" (num 0) context
  r ← on_store (Store.create now fresh objective steps normalized workflow_id "queued")
  checkpoint now r.workflow_id "start"
      (field "status" (str "queued") (field "context" (obj normalized) end))
  pure r

-- `int(v)`; a text is refused, though Python would read a numeral there.
abbrev pub int_of : Value → Result ℕ
int_of (num n) = ok n
int_of (bool true) = ok 1
int_of (bool false) = ok 0
int_of (str s) = raised (value_error s)
int_of _ = raised type_error

-- `int(context.get("current_step", 0))`
abbrev pub current_step : Fields → Result ℕ
current_step context = int_of (get_or (num 0) (get "current_step" context))

abbrev lift : {A : Type 0} → Result A → Exec Engine A
lift r s = (r, s)

-- `step["status"] = "done"`, and `step["result"]` if there is a result
abbrev pub step_done : Option Fields → Fields → Fields
step_done none step = put "status" (str "done") step
step_done (some result) step = put "result" (obj result) (put "status" (str "done") step)

abbrev pub finish_step : Option Fields → ℕ → List Fields → List Fields
finish_step result idx steps = elim (get_elem? steps idx) [
  | none ↦ steps
  | some step ↦ set steps idx (step_done result step)
]

abbrev pub next_status : List Fields → ℕ → String
next_status steps idx = if leb (length steps) idx then "done" else "running"

abbrev step_payload : String → ℕ → Option Fields → Fields
step_payload status idx result =
    field "status" (str status)
      (field "current_step" (num idx) (field "result" (obj (get_or end result)) end))

-- The last part of `advance`: `idx`, `steps` and `context` are those after the step was finished.
advance_to :
    ℕ
    → Option Fields
    → ℕ
    → List Fields
    → Fields
    → WorkflowRecord
    → Exec Engine (Option WorkflowRecord)
unfolding write_back
advance_to now result idx steps context current =
    let status = next_status steps idx in
    write_back now current (some status) (some steps) (some context) (some "") ("step-" ++ show idx)
      (step_payload status idx result)

-- `advance` on an open workflow that was found.
advance_active : ℕ → Option Fields → String → WorkflowRecord → Exec Engine (Option WorkflowRecord)
unfolding advance_to
advance_active now result error current = do
  idx ← lift (current_step current.context)
  let steps = current.steps
  let context = current.context
  if is_empty error
      then if length steps == 0
        then write_back now current (some "done") (some steps) (some context) none "done"
            (field "status" (str "done") (field "empty_steps" (bool true) end))
        else if ltb idx (length steps)
        then advance_to now result (idx + 1) (finish_step result idx steps)
            (put "current_step" (num (idx + 1)) context) current
        else advance_to now result idx steps context current
      else write_back now current (some "failed") (some steps) (some context) (some error)
          ("step-" ++ (show idx ++ "-failed")) (field "error" (str error) end)

-- `current.status in {"done", "failed"}`
abbrev pub is_closed : String → Bool
is_closed status = str_eq status "done" || str_eq status "failed"

advance_found :
    ℕ → Option Fields → String → Option WorkflowRecord → Exec Engine (Option WorkflowRecord)
unfolding advance_active
advance_found now result error none = pure none
advance_found now result error (some current) =
    if is_closed current.status
    then pure (some current)
    else advance_active now result error current

-- `advance`
unfoldable pub advance :
    (now : ℕ) (workflow_id : String) (result : Option Fields) (error : String)
    → Exec Engine (Option WorkflowRecord)
unfolding advance_found
advance now workflow_id result error = do
  current ← on_store (Store.get workflow_id)
  advance_found now result error current

resume_found : ℕ → Option WorkflowRecord → Exec Engine (Option WorkflowRecord)
unfolding write_back
resume_found now none = pure none
resume_found now (some current) =
    if str_eq current.status "done" || str_eq current.status "running"
    then pure (some current)
    else write_back now current (some "running") none none (some "") "resume"
        (field "status" (str "running") end)

-- `resume`
unfoldable pub resume : (now : ℕ) (workflow_id : String) → Exec Engine (Option WorkflowRecord)
unfolding resume_found
resume now workflow_id = do current ← on_store (Store.get workflow_id); resume_found now current
