-- ===== src/Workflows/Store.antt =====
-- `WorkflowStore` of core/novaadapt_core/workflows/store.py. A call's clock reading is an argument,
-- and so is the identifier that `uuid4` makes up.
pub mod Laws
use Prim.Native.String
use nova_adapt.Base.Order.{order_by}
use nova_adapt.Base.{
  leb, min, max, take, filter, ℕ, string_eq, String, ◌≡◌, Bool, Option, none, some, List, [], ◌∷◌,
  ◌++◌, if◌then◌else◌, get_or, str_eq, arith,
}
use nova_adapt.Base
use nova_adapt.Base.Text.{strip, is_empty, or_else}
use nova_adapt.Base.Json.{Fields}
use nova_adapt.Base.Table
use nova_adapt.Base.Exec.{
  Result, ok, raised, Exec, pure, raise, reading, modify, raise_if, ◌>>=◌, ◌>>◌, value_error,
  runtime_error, integrity_error,
}

pub record WorkflowRecord : Type 0 where
  pub workflow_id : String
  pub status : String
  pub objective : String
  pub steps : List Fields
  pub context : Fields
  pub created_at : ℕ
  pub updated_at : ℕ
  pub last_error : String

abbrev pub Rows : Type 0
Rows = List WorkflowRecord

abbrev pub key : WorkflowRecord → String
key r = r.workflow_id

abbrev pub select : String → Rows → Option WorkflowRecord
select = Table.select key

-- `get`
unfoldable pub get : String → Exec Rows (Option WorkflowRecord)
get workflow_id = do
  let normalized = strip workflow_id
  raise_if (is_empty normalized) (value_error "'workflow_id' is required")
  reading (select normalized)

insert_row : WorkflowRecord → Exec Rows (Unit {0})
insert_row r rows = elim (Table.insert key r rows) [
  | none ↦ (raised integrity_error, rows)
  | some rows' ↦ (ok tt, rows')
]

found : String → Option WorkflowRecord → Exec Rows WorkflowRecord
found wid none = raise (runtime_error (String.◌++◌ "workflow create failed: " wid))
found wid (some r) = pure r

-- `create`; `fresh` is the identifier that stands in for an empty `workflow_id`.
unfoldable pub create :
    (now : ℕ) (fresh : String) (objective : String) (steps : List Fields) (context : Fields)
    (workflow_id status : String)
    → Exec Rows WorkflowRecord
unfolding get insert_row found
create now fresh objective steps context workflow_id status = do
  let normalized_objective = strip objective
  raise_if (is_empty normalized_objective) (value_error "'objective' is required")
  let wid = or_else workflow_id fresh
  insert_row (record {
    workflow_id = wid;
    status = or_else status "queued";
    objective = normalized_objective;
    steps = steps;
    context = context;
    created_at = now;
    updated_at = now;
    last_error = "";
  })
  row ← get wid
  found wid row

-- The columns that `update` sets; `none` keeps the value of the record that it has just read.
abbrev pub changed :
    ℕ
    → Option String
    → Option (List Fields)
    → Option Fields
    → Option String
    → WorkflowRecord
    → WorkflowRecord
    → WorkflowRecord
changed now status steps context last_error current r = record r {
  status = get_or current.status status;
  steps = get_or current.steps steps;
  context = get_or current.context context;
  updated_at = now;
  last_error = get_or current.last_error last_error;
}

update_from :
    (now : ℕ) (workflow_id : String) (status : Option String) (steps : Option (List Fields))
    (context : Option Fields) (last_error : Option String)
    → Option WorkflowRecord
    → Exec Rows (Option WorkflowRecord)
unfolding get
update_from now workflow_id status steps context last_error none = pure none
update_from now workflow_id status steps context last_error (some current) = do
  modify (Table.update key workflow_id (changed now status steps context last_error current))
  get workflow_id

-- `update`; the WHERE clause compares the identifier as it was given, unstripped.
unfoldable pub update :
    (now : ℕ) (workflow_id : String) (status : Option String) (steps : Option (List Fields))
    (context : Option Fields) (last_error : Option String)
    → Exec Rows (Option WorkflowRecord)
unfolding update_from
update now workflow_id status steps context last_error = do
  current ← get workflow_id
  update_from now workflow_id status steps context last_error current

-- ORDER BY created_at DESC
abbrev pub newest_first : WorkflowRecord → WorkflowRecord → Bool
newest_first a b = leb b.created_at a.created_at

abbrev pub has_status : String → WorkflowRecord → Bool
has_status status r = str_eq r.status status

-- `list`; an empty `status` asks for every row.
unfoldable pub list_workflows : (limit : ℕ) (status : String) → Rows → Rows
list_workflows limit status rows =
    let capped = max 1 (min 500 limit) in
    let wanted = strip status in
    take capped
      (order_by newest_first (if is_empty wanted then rows else filter (has_status wanted) rows))
