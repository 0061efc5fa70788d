-- ===== src/Workflows/Engine/Start.antt =====
-- What `start` leaves behind: a queued record, at step 0 unless the caller's context says otherwise.
use nova_adapt.Base.{
  ℕ, String, string_eq, ◌≡◌, refl, sym, subst, false, none, some, List, [], ◌∷◌, ◌++◌, arith,
  beq_refl,
}
use nova_adapt.Base.Text.{strip, is_empty, or_else}
use nova_adapt.Base.Json.{Fields, num, str, obj, field, end, get, get-put, set_default}
use nova_adapt.Base.Table
use nova_adapt.Base.Exec.{ok}
use nova_adapt.Workflows.Store
use nova_adapt.Workflows.Store.{WorkflowRecord, key, select}
use nova_adapt.Workflows.Store.Laws.{IsId, create_lem}
use nova_adapt.Workflows.Engine.{Engine, start, current_step}
use nova_adapt.Workflows.Engine.Step.{checkpoint-ok, store-checkpoint}

-- The record of a workflow that has just been started.
abbrev pub queued : ℕ → String → List Fields → Fields → String → WorkflowRecord
queued now objective steps context wid = record {
  workflow_id = wid;
  status = "queued";
  objective = strip objective;
  steps = steps;
  context = set_default "current_step" (num 0) context;
  created_at = now;
  updated_at = now;
  last_error = "";
}

module _ (now : ℕ) (fresh objective : String) (steps : List Fields) (context : Fields)
    (wid : String) (s : Engine) (id : IsId wid) (named : is_empty (strip objective) ≡ false)
    (unused : select wid s.store ≡ none) where
  abbrev row : WorkflowRecord
  row = queued now objective steps context wid

  abbrev context' : Fields
  context' = set_default "current_step" (num 0) context

  abbrev after_write : Engine
  after_write = record s { store = s.store ++ row ∷ [] }

  own : or_else wid fresh ≡ wid
  own = rw id.present

  creates :
      Store.create now fresh objective steps context' wid "queued" s.store
      ≡ (ok row, s.store ++ row ∷ [])
  creates =
      rw
        (create_lem now fresh objective steps context' wid "queued" s.store named
          (subst IsId (sym own) id) (subst (λ w. select w s.store ≡ none) (sym own) unused))
        (rw own)

  pub start_lem :
      ((start now fresh objective steps context wid s).0 ≡ ok row)
      × (select wid (start now fresh objective steps context wid s).1.store ≡ some row)
  unfolding start strip
  start_lem =
      let payload : Fields = field "status" (str "queued") (field "context" (obj context') end) in
      let safe = checkpoint-ok now wid "start" payload after_write id refl in
      let kept = store-checkpoint now wid "start" payload after_write in
      (
        ground (arith, creates, safe),
        ground (arith, creates, safe, kept, Table.select-append key wid s.store row, beq_refl wid),
      )

-- Without an entry of the caller's, the workflow begins at step 0.
pub current_step-queued :
    (context : Fields)
    → get "current_step" context ≡ none
    → current_step (set_default "current_step" (num 0) context) ≡ ok 0
unfolding set_default
current_step-queued context h =
    ground (arith, get-put "current_step" "current_step" (num 0) context)
