-- ===== src/Service/Undo.antt =====
-- `undo`, `undo_plan` and `history` of core/novaadapt_core/service.py.
pub mod Marks
use Prim.Native.String
use nova_adapt.Base.{
  ℕ, String, Bool, true, false, not, ◌&&◌, Option, none, some, List, [], ◌∷◌, if◌then◌else◌, str_eq,
  max, get_or, nat_eq,
}
use mathlib.Core.List.{reverse}
use nova_adapt.Base.Decimal.{show}
use nova_adapt.Base.Json.{Value, Fields, Items, cons, nil, str, obj, arr, num, bool, field, end}
use nova_adapt.Base.Exec.{Exec, Result, ok, raised, Error, value_error, ◌>>=◌, ◌>>◌, pure, raise}
use nova_adapt.Plans.PlanStore
use nova_adapt.Plans.PlanStore.{PlanRecord}
use nova_adapt.Plans.UndoQueue
use nova_adapt.Plans.UndoQueue.{UndoQueue, Action, mark_undone, latest_pending, recent}
use nova_adapt.Service.Routing.{Routed, execute_routed_action}
use nova_adapt.Service.Actions.{Outside, Service, MemoryCall, ingest_control, outside}

-- The payload of `undo`, after `coerce_bool` and `int`.
pub record UndoRequest : Type 0 where
  pub id : Option ℕ
  pub mark_only : Bool
  pub execute : Bool

-- `queue.get(int(action_id)) if action_id is not None else queue.latest_pending()`
abbrev pub wanted : Option ℕ → UndoQueue → Option Action
wanted none q = latest_pending q
wanted (some id) q = UndoQueue.get id q

abbrev pub marked_result : ℕ → Fields
marked_result id =
    field "id" (num id) (field "status" (str "marked_undone") (field "mode" (str "mark_only") end))

abbrev pub undo_result : ℕ → Bool → Bool → Routed → Fields
undo_result id execute marked r = field "id" (num id) (
    field "executed" (bool execute) (
      field "undo_result"
        (obj (
          field "status" (str r.status)
            (field "output" (str r.output) (field "action" (obj r.action) end))))
        (field "marked_undone" (bool marked) end)))

abbrev pub no_undo_text : String
no_undo_text = "No undo action stored for this record. Set 'mark_only': true to mark it manually."

abbrev pub already_text : ℕ → String
already_text id = String.◌++◌ "Action " (String.◌++◌ (show id) " is already marked undone")

abbrev pub ok_entry : ℕ → Fields → Fields
ok_entry id result = field "id" (num id) (field "ok" (bool true) (field "result" (obj result) end))

abbrev pub error_entry : ℕ → String → Fields
error_entry id text = field "id" (num id) (field "ok" (bool false) (field "error" (str text) end))

module _ {W : Type 0} (o : Outside W) where
  -- `queue.mark_undone(…)`, whose answer is not used
  unfoldable pub mark : ℕ → Service W → Service W
  mark id s = record s { queue = (mark_undone id s.queue).1 }

  -- The end of `undo`: the undo action was run or shown.
  unfoldable pub undone : UndoRequest → ℕ → Routed → Exec (Service W) Fields
  unfolding mark
  undone r id routed s =
      let marked = r.execute && str_eq routed.status "ok" in
      let answer = undo_result id r.execute marked routed in
      let s' = if marked then mark id s else s in
      let event = if marked then "undo.executed" else "undo.preview" in
      (
        ok answer,
        record s' { outer = o.remember (ingest_control "undo" answer (event ∷ [])) s'.outer },
      )

  abbrev run_undo : UndoRequest → ℕ → Fields → Exec (Service W) Fields
  run_undo r id action = do
    routed ← outside o (execute_routed_action o.ex o.depth r.execute action)
    undone r id routed

  undo_pending : UndoRequest → ℕ → Option Fields → Exec (Service W) Fields
  unfolding mark undone
  undo_pending r id none s =
      if r.mark_only
      then (ok (marked_result id), mark id s)
      else (raised (value_error no_undo_text), s)
  undo_pending r id (some action) s = elim r.mark_only [
    | true ↦ (ok (marked_result id), mark id s)
    | false ↦ run_undo r id action s
  ]

  undo_item : UndoRequest → Option Action → Exec (Service W) Fields
  unfolding undo_pending
  undo_item r none s = (raised (value_error "No matching action found in log"), s)
  undo_item r (some item) s = elim item.undone [
    | true ↦ (raised (value_error (already_text item.id)), s)
    | false ↦ undo_pending r item.id item.undo_action s
  ]

  -- `undo`
  unfoldable pub undo : UndoRequest → Exec (Service W) Fields
  unfolding undo_item
  undo r s = undo_item r (wanted r.id s.queue) s

  -- `history`
  unfoldable pub history : ℕ → Service W → List Action
  history limit s = recent (max 1 limit) s.queue

  -- An entry of `results`, or an error that is let through.
  entry : ℕ → Result Fields → Result Fields
  entry id (ok result) = ok (ok_entry id result)
  entry id (raised (value_error text)) = ok (error_entry id text)
  entry id (raised e) = raised e

  abbrev undo_one : Bool → Bool → ℕ → Exec (Service W) Fields
  undo_one execute mark_only id s =
      let (r, s') = undo (record { id = some id; mark_only = mark_only; execute = execute }) s in
      (entry id r, s')

  -- The loop of `undo_plan`, over the identifiers in reversed order.
  unfoldable pub undo_each : (execute mark_only : Bool) → List ℕ → Exec (Service W) (List Fields)
  unfolding undo entry
  undo_each execute mark_only [] = pure []
  undo_each execute mark_only (id ∷ ids) = do
    one ← undo_one execute mark_only id
    rest ← undo_each execute mark_only ids
    pure (one ∷ rest)

  abbrev items : List Fields → Items
  items [] = nil
  items (f ∷ fs) = cons (obj f) (items fs)

  abbrev plan_undo_payload : String → Bool → Bool → List Fields → Fields
  plan_undo_payload plan_id execute mark_only results = field "plan_id" (str plan_id) (
      field "executed" (bool execute)
        (field "mark_only" (bool mark_only) (field "results" (arr (items results)) end)))

  -- The end of `undo_plan`.
  abbrev report : String → (execute mark_only : Bool) → List Fields → Exec (Service W) Fields
  report plan_id execute mark_only results s =
      let answer = plan_undo_payload plan_id execute mark_only results in
      (
        ok answer,
        record s {
          outer = o.remember (ingest_control "plan_undo" answer ("plan.undo" ∷ [])) s.outer;
        },
      )

  unfoldable undo_logged : String → (execute mark_only : Bool) → List ℕ → Exec (Service W) Fields
  unfolding undo_each
  undo_logged plan_id execute mark_only [] =
      raise (value_error "Plan has no recorded action logs to undo")
  undo_logged plan_id execute mark_only (id ∷ ids) = do
    results ← undo_each execute mark_only (reverse (id ∷ ids))
    report plan_id execute mark_only results

  unfoldable undo_found :
      String → (execute mark_only : Bool) → Option PlanRecord → Exec (Service W) Fields
  unfolding undo_logged
  undo_found plan_id execute mark_only none = raise (value_error "Plan not found")
  undo_found plan_id execute mark_only (some p) =
      undo_logged plan_id execute mark_only (get_or [] p.action_log_ids)

  -- `undo_plan`
  unfoldable pub undo_plan : String → (execute mark_only : Bool) → Exec (Service W) Fields
  unfolding undo_found
  undo_plan plan_id execute mark_only s =
      undo_found plan_id execute mark_only (PlanStore.get plan_id s.plans) s
