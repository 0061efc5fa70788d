-- ===== src/Workflows/Checkpoints.antt =====
-- `WorkflowCheckpointStore` of core/novaadapt_core/workflows/checkpoints.py.
pub mod Laws
use nova_adapt.Base.{
  ℕ, String, Option, none, some, List, [], ◌∷◌, ◌++◌, str_eq, leb, Bool, filter, take, min, max,
  string_eq, pair_eq,
}
use nova_adapt.Base.Text.{strip, is_empty}
use nova_adapt.Base.Json.{Fields}
use nova_adapt.Base.Table
use nova_adapt.Base.Order.{order_by, first}
use nova_adapt.Base.Exec.{
  ok, raised, Exec, pure, reading, modify, raise_if, ◌>>=◌, ◌>>◌, value_error,
}

pub record Checkpoint : Type 0 where
  pub workflow_id : String
  pub checkpoint_id : String
  pub payload : Fields
  pub created_at : ℕ

abbrev pub Rows : Type 0
Rows = List Checkpoint

-- PRIMARY KEY(workflow_id, checkpoint_id)
abbrev pub key : Checkpoint → String × String
key c = (c.workflow_id, c.checkpoint_id)

-- INSERT OR REPLACE
abbrev pub replace_row : Checkpoint → Rows → Rows
replace_row c rows = Table.delete key (key c) rows ++ c ∷ []

-- `save`
unfoldable pub save :
    (now : ℕ) (workflow_id checkpoint_id : String) (payload : Fields) → Exec Rows Checkpoint
save now workflow_id checkpoint_id payload = do
  let wf = strip workflow_id
  let cp = strip checkpoint_id
  raise_if (is_empty wf) (value_error "'workflow_id' is required")
  raise_if (is_empty cp) (value_error "'checkpoint_id' is required")
  let saved : Checkpoint = record {
    workflow_id = wf;
    checkpoint_id = cp;
    payload = payload;
    created_at = now;
  }
  modify (replace_row saved)
  pure saved

-- `load`
unfoldable pub load : (workflow_id checkpoint_id : String) → Exec Rows (Option Checkpoint)
load workflow_id checkpoint_id = do
  let wf = strip workflow_id
  let cp = strip checkpoint_id
  raise_if (is_empty wf) (value_error "'workflow_id' is required")
  raise_if (is_empty cp) (value_error "'checkpoint_id' is required")
  reading (Table.select key (wf, cp))

-- ORDER BY created_at DESC
abbrev pub newest_first : Checkpoint → Checkpoint → Bool
newest_first a b = leb b.created_at a.created_at

abbrev pub of_workflow : String → Checkpoint → Bool
of_workflow wf c = str_eq c.workflow_id wf

-- `latest`
unfoldable pub latest : (workflow_id : String) → Exec Rows (Option Checkpoint)
latest workflow_id = do
  let wf = strip workflow_id
  raise_if (is_empty wf) (value_error "'workflow_id' is required")
  reading (λ rows. first (order_by newest_first (filter (of_workflow wf) rows)))

-- `list`
unfoldable pub list_checkpoints : (limit : ℕ) (workflow_id : String) → Exec Rows Rows
list_checkpoints limit workflow_id = do
  let wf = strip workflow_id
  raise_if (is_empty wf) (value_error "'workflow_id' is required")
  let capped = max 1 (min 200 limit)
  reading (λ rows. take capped (order_by newest_first (filter (of_workflow wf) rows)))
