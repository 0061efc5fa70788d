-- ===== src/Workflows/Engine/Terminal.antt =====
-- Closed workflows, failures and `resume`.
use Prim.Native.String.{◌++◌}
use nova_adapt.Base.{
  ℕ, ◌<◌, String, string_eq, ◌≡◌, ◌≢◌, refl, sym, subst, true, false, Option, none, some, List,
  arith, str_eq, length, ◌||◌, inl, inr, Option-cases, ◌∙◌,
}
use nova_adapt.Base.Text.{strip, is_empty}
use nova_adapt.Base.Decimal.{show}
use nova_adapt.Base.Json.{Fields, field, end, str}
use nova_adapt.Base.Table
use nova_adapt.Base.Exec.{Result, ok, Result-cases}
use nova_adapt.Workflows.Store
use nova_adapt.Workflows.Store.{WorkflowRecord, key, select, changed}
use nova_adapt.Workflows.Store.Laws.{IsId, get_lem, select-update_ne}
use nova_adapt.Workflows.Engine.{
  Engine, advance, resume, current_step, is_closed, write_back, advance_active,
}
use nova_adapt.Workflows.Engine.Step.{
  advanced, advance_step, write_back_lem, store-checkpoint_updated, step_name-present,
}

-- What a call returned and stored under `wid`.
abbrev pub Leaves : String → WorkflowRecord → Result (Option WorkflowRecord) × Engine → Type 0
Leaves wid r (result, s) = (result ≡ ok (some r)) × (select wid s.store ≡ some r)

-- The record of a workflow that failed, or that was resumed: its steps and its context are kept.
abbrev pub failed : ℕ → String → WorkflowRecord → WorkflowRecord
failed now error r = record r { status = "failed"; updated_at = now; last_error = error }

abbrev pub resumed : ℕ → WorkflowRecord → WorkflowRecord
resumed now r = record r { status = "running"; updated_at = now; last_error = "" }

module _ (now : ℕ) (s : Engine) (r : WorkflowRecord) (id : IsId r.workflow_id)
    (stored : select r.workflow_id s.store ≡ some r) where
  fail_named :
      (result : Option Fields) (error : String) (k : ℕ)
      → is_closed r.status ≡ false
      → current_step r.context ≡ ok k
      → is_empty error ≡ false
      → Leaves r.workflow_id (failed now error r) (advance now r.workflow_id result error s)
  unfolding advance
  fail_named result error k open_status at bad = ground (
    arith,
    get_lem r.workflow_id s.store id,
    write_back_lem now r (some "failed") (some r.steps) (some r.context) (some error)
        ("step-" ++ (show k ++ "-failed")) (field "error" (str error) end) s id
        (step_name-present (show k ++ "-failed")) stored,
  )

  resume_named :
      (str_eq r.status "done" || str_eq r.status "running") ≡ false
      → Leaves r.workflow_id (resumed now r) (resume now r.workflow_id s)
  unfolding resume strip
  resume_named idle = ground (
    arith,
    get_lem r.workflow_id s.store id,
    write_back_lem now r (some "running") none none (some "") "resume"
        (field "status" (str "running") end) s id refl stored,
  )

module _ (wid : String) (s : Engine) (r : WorkflowRecord) (id : IsId wid)
    (stored : select wid s.store ≡ some r) where
  named : r.workflow_id ≡ wid
  named = Table.key-select key wid s.store r stored

  own :
      (P : String → Type 0)
      → (IsId r.workflow_id → select r.workflow_id s.store ≡ some r → P r.workflow_id)
      → P wid
  own P h =
      subst P named
        (h (subst IsId (sym named) id) (subst (λ w. select w s.store ≡ some r) (sym named) stored))

  -- A stored workflow that is done or has failed, under an identifier that is not blank and has no
  -- blanks at its ends, is returned by `advance` and stays as it is, whatever result or error is
  -- reported; no checkpoint is written.
  pub advance_closed :
      (now : ℕ) (result : Option Fields) (error : String)
      → is_closed r.status ≡ true
      → advance now wid result error s ≡ (ok (some r), s)
  unfolding advance
  advance_closed now result error closed = ground (arith, get_lem wid s.store id)

  pub advance_fails :
      (now : ℕ) (result : Option Fields) (error : String) (k : ℕ)
      → is_closed r.status ≡ false
      → current_step r.context ≡ ok k
      → is_empty error ≡ false
      → Leaves wid (failed now error r) (advance now wid result error s)
  advance_fails now result error k open_status at bad =
      own (λ w. Leaves w (failed now error r) (advance now w result error s))
        (λ i h. fail_named now s r i h result error k open_status at bad)

  pub resume_lem :
      (now : ℕ)
      → (str_eq r.status "done" || str_eq r.status "running") ≡ false
      → Leaves wid (resumed now r) (resume now wid s)
  resume_lem now idle =
      own (λ w. Leaves w (resumed now r) (resume now w s)) (λ i h. resume_named now s r i h idle)

-- A step that fails can be tried again: on a stored workflow that is neither done nor failed, under an
-- identifier that is not blank and has no blanks at its ends, whose context is at a step `k` that it
-- has, an error report, `resume` and an error-free `advance` leave the record that the error-free
-- `advance` alone would leave at that time.
pub retry_step :
    (wid : String) (s : Engine) (r : WorkflowRecord) (t1 t2 t3 : ℕ) (result : Option Fields)
    (error : String) (k : ℕ)
    → IsId wid
    → select wid s.store ≡ some r
    → is_closed r.status ≡ false
    → current_step r.context ≡ ok k
    → k < length r.steps
    → is_empty error ≡ false
    → let failing = (advance t1 wid none error s).1 in
      let again = (resume t2 wid failing).1 in
      Leaves wid (advanced t3 result k r) (advance t3 wid result "" again)
retry_step wid s r t1 t2 t3 result error k id stored open_status at more bad =
    let failing = (advance t1 wid none error s).1 in
    let down = advance_fails wid s r id stored t1 none error k open_status at bad in
    let r1 = failed t1 error r in
    let up = resume_lem wid failing r1 id down.1 t2 refl in
    advance_step t3 result k (resume t2 wid failing).1 (resumed t2 r1) refl at more wid id up.1

write_back_frame :
    (now : ℕ) (r : WorkflowRecord) (status : Option String) (steps : Option (List Fields))
    (context : Option Fields) (last_error : Option String) (name : String) (payload : Fields)
    (s : Engine) (other : String)
    → r.workflow_id ≢ other
    → select other (write_back now r status steps context last_error name payload s).1.store
      ≡ select other s.store
unfolding write_back
write_back_frame now r status steps context last_error name payload s other ne =
    let out = Store.update now r.workflow_id status steps context last_error s.store in
    let same =
      select-update_ne now r.workflow_id other status steps context last_error s.store ne in
    elim (Result-cases out.0) [
      | inl (u, e) ↦
          let saved = record s { store = out.1 } in
          ground (arith, store-checkpoint_updated now name payload u saved)
      | inr (x, e) ↦ ground arith
    ]

advance_active_frame :
    (now : ℕ) (result : Option Fields) (error : String) (r : WorkflowRecord) (s : Engine)
    (other : String)
    → r.workflow_id ≢ other
    → select other (advance_active now result error r s).1.store ≡ select other s.store
unfolding advance_active
advance_active_frame now result error r s other ne = grind (arith, write_back_frame)

-- No call of `advance` changes the record of an identifier other than the stripped one that it is
-- given, also where it raises.
pub advance_frame :
    (now : ℕ) (wid other : String) (result : Option Fields) (error : String) (s : Engine)
    → strip wid ≢ other
    → select other (advance now wid result error s).1.store ≡ select other s.store
unfolding advance Store.get
advance_frame now wid other result error s ne = elim (Option-cases (select (strip wid) s.store)) [
  | inl absent ↦ ground arith
  | inr (r, found) ↦
      let named = Table.key-select key (strip wid) s.store r found in
      ground (arith, advance_active_frame now result error r s other (λ e. ne (sym named ∙ e)))
]
