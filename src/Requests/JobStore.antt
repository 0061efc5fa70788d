-- ===== src/Requests/JobStore.antt =====
-- `JobStore` of core/novaadapt_core/job_store.py, and `JobRecord` of jobs.py. A time is a number of
-- microseconds. JSON text that is written is read back as the same value.
use nova_adapt.Base.{
  whole_seconds, ℕ, ◌+◌, String, Bool, false, ◌&&◌, ◌||◌, ◌==◌, ◌≡◌, refl, Option, some, List,
  if◌then◌else◌, ltb, leb, str_eq, get_or, count, take, max, string_eq, arith, Option-cases, inl,
  inr, beq_refl,
}
use nova_adapt.Base.Json.{Fields}
use nova_adapt.Base.Table
use nova_adapt.Base.Table.Where.{delete_where}
use nova_adapt.Base.Order.{order_by}

-- A row of `async_jobs` has the columns that `JobRecord` has.
pub record JobRecord : Type 0 where
  pub id : String
  pub status : String
  pub created_at : ℕ
  pub started_at : Option ℕ
  pub finished_at : Option ℕ
  pub result : Option Fields
  pub error : Option String
  pub cancel_requested : Bool
  pub metadata : Option Fields

abbrev pub Rows : Type 0
Rows = List JobRecord

abbrev pub key : JobRecord → String
key r = r.id

-- ON CONFLICT(id) DO UPDATE SET …: all the columns but `id` and `created_at`
abbrev pub overwrite : JobRecord → JobRecord → JobRecord
overwrite new_row old = record new_row { id = old.id; created_at = old.created_at }

-- `upsert`
unfoldable pub upsert : JobRecord → Rows → Rows
upsert r rows = Table.upsert key r (overwrite r) rows

-- `get`, but for the two entries that `_row_to_dict` reads off the metadata
unfoldable pub get_row : String → Rows → Option JobRecord
get_row id rows = Table.select key id rows

-- ORDER BY created_at DESC
abbrev pub newest_first : JobRecord → JobRecord → Bool
newest_first a b = leb b.created_at a.created_at

-- `list`
unfoldable pub list : ℕ → Rows → Rows
list limit rows = take (max 1 limit) (order_by newest_first rows)

abbrev pub is_terminal : String → Bool
is_terminal status = str_eq status "succeeded" || str_eq status "failed" || str_eq status "canceled"

-- The WHERE clause of `prune_older_than`; the time to keep is in seconds.
abbrev pub is_old : (now retention : ℕ) → JobRecord → Bool
is_old now retention r =
    is_terminal r.status
    && ltb (whole_seconds (get_or r.created_at r.finished_at) + retention) (whole_seconds now)

-- `prune_older_than`
unfoldable pub prune_older_than : (now older_than : ℕ) → Rows → ℕ × Rows
prune_older_than now older_than rows =
    if older_than == 0
    then (0, rows)
    else (count (is_old now older_than) rows, delete_where (is_old now older_than) rows)

-- A row that is as `upsert` finds it takes every column of the new record.
pub get_row-upsert :
    (r : JobRecord) (rows : Rows)
    → ((old : JobRecord) → get_row r.id rows ≡ some old → old.created_at ≡ r.created_at)
    → get_row r.id (upsert r rows) ≡ some r
unfolding get_row upsert
get_row-upsert r rows same =
    let found = Table.select-upsert key r.id r (overwrite r) rows (λ x. refl) in
    elim (Option-cases (Table.select key r.id rows)) [
      | inl free ↦ ground (arith, found, free, beq_refl r.id)
      | inr (old, there) ↦
          let id : old.id ≡ r.id = Table.key-select key r.id rows old there in
          let whole : overwrite r old ≡ r = rw id (rw (same old there) refl) in
          ground (arith, found, there, whole, beq_refl r.id)
    ]

pub get_row-upsert_other :
    (r : JobRecord) (rows : Rows) (id : String)
    → str_eq r.id id ≡ false
    → get_row id (upsert r rows) ≡ get_row id rows
unfolding get_row upsert
get_row-upsert_other r rows id other =
    ground (arith, Table.select-upsert key id r (overwrite r) rows (λ x. refl))
