-- ===== src/Workflows/Tests.antt =====
-- A workflow of two steps, run to its end, and the theorems at concrete inputs.
use nova_adapt.Base.{
  ne_of_str_eq, ℕ, String, ◌≡◌, refl, Option, none, some, List, [], ◌∷◌, arith, length,
}
use nova_adapt.Base.Table
use nova_adapt.Base.Text.{strip}
use nova_adapt.Base.Json.{Fields, end, field, str, num, get, put, set_default}
use nova_adapt.Base.Exec.{ok, raised, runtime_error}
use nova_adapt.Workflows.Store
use nova_adapt.Workflows.Store.{WorkflowRecord, select, key}
use nova_adapt.Workflows.Store.Laws.{IsId, create_padded}
use nova_adapt.Workflows.Checkpoints
use nova_adapt.Workflows.Checkpoints.Laws.{load-save}
use nova_adapt.Workflows.Engine.{Engine, start, advance, resume}
use nova_adapt.Workflows.Engine.Step.{advanced}
use nova_adapt.Workflows.Engine.Start.{queued}
use nova_adapt.Workflows.Engine.Progress.{run, IsAt, run_progress}
use nova_adapt.Workflows.Engine.Terminal.{Leaves, retry_step}

abbrev step_of : String → Fields
step_of name = field "name" (str name) end

abbrev two_steps : List Fields
two_steps = step_of "open" ∷ step_of "click" ∷ []

abbrev fresh_engine : Engine
fresh_engine = record { store = []; checkpoints = some [] }

abbrev calls : List (ℕ × Option Fields)
calls = (2, none) ∷ (3, some (field "ok" (num 1) end)) ∷ []

wf-IsId : IsId "wf-1"
unfolding strip
wf-IsId = record { stripped = refl; present = refl }

abbrev begun : Engine
begun = (start 1 "wf-x" "buy tea" two_steps end "wf-1" fresh_engine).1

run_progress_example :
    (r : WorkflowRecord) × (select "wf-1" (run "wf-1" calls begun).store ≡ some r)
    × IsAt two_steps (length calls) r
unfolding strip get Table.select
run_progress_example =
    run_progress 1 "wf-x" "buy tea" two_steps end "wf-1" fresh_engine calls wf-IsId refl refl refl
      (omega arith)

abbrev begun_row : WorkflowRecord
begun_row = queued 1 "buy tea" two_steps end "wf-1"

begun-stored : select "wf-1" begun.store ≡ some begun_row
unfolding start Store.create strip set_default get Table.select Table.insert Checkpoints.save
begun-stored = refl

retry_step_example :
    let failing = (advance 2 "wf-1" none "no window" begun).1 in
    Leaves "wf-1"
      (advanced 4 none 0 begun_row)
      (advance 4 "wf-1" none "" (resume 3 "wf-1" failing).1)
unfolding set_default get put
retry_step_example =
    retry_step "wf-1" begun begun_row 2 3 4 none "no window" 0 wf-IsId begun-stored refl refl
      (omega arith) refl

abbrev failed_row : WorkflowRecord
failed_row = record begun_row { status = "failed"; last_error = "no window" }

abbrev stopped : Engine
stopped = record begun { store = failed_row ∷ [] }

padded_row : WorkflowRecord
padded_row = record begun_row { workflow_id = " wf-1" }

create_padded_example :
    Store.create 1 "wf-x" "buy tea" two_steps begun_row.context " wf-1" "queued" []
    ≡ (raised (runtime_error "workflow create failed:  wf-1"), padded_row ∷ [])
unfolding strip Table.select padded_row
create_padded_example =
    create_padded 1 "wf-x" "buy tea" two_steps begun_row.context " wf-1" "queued" [] refl refl refl
      refl (ne_of_str_eq (strip " wf-1") " wf-1" refl)

load-save_example :
    (Checkpoints.load "wf-1" "done " (Checkpoints.save 5 "wf-1" " done" end []).1).0
    ≡ ok (
        some
          (record { workflow_id = "wf-1"; checkpoint_id = "done"; payload = end; created_at = 5 }))
unfolding strip
load-save_example = load-save 5 "wf-1" " done" end [] refl refl "wf-1" "done " refl refl
