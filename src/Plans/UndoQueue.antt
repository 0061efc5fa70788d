-- ===== src/Plans/UndoQueue.antt =====
-- `UndoQueue` of shared/novaadapt_shared/undo_queue.py. SQLite gives each row an identifier that no
-- row had before (AUTOINCREMENT). A time is a number of seconds, as CURRENT_TIMESTAMP is.
pub mod Order
pub mod Marked
use nova_adapt.Base.{
  ℕ, suc, ◌+◌, String, Bool, true, false, not, ◌==◌, Option, none, some, List, [], ◌∷◌, ◌++◌,
  if◌then◌else◌, ltb, leb, count, filter, take, nat_eq,
}
use nova_adapt.Base.Json.{Fields}
use nova_adapt.Base.Table
use nova_adapt.Base.Table.Where.{delete_where}
use nova_adapt.Base.Order.{order_by, first}

-- A row of the table `action_log`.
pub record Action : Type 0 where
  pub id : ℕ
  pub action : Fields
  pub undo_action : Option Fields
  pub status : String
  pub created_at : ℕ
  pub undone : Bool

-- The table, and the largest identifier that was ever given.
pub record UndoQueue : Type 0 where
  pub rows : List Action
  pub last_id : ℕ

abbrev pub key : Action → ℕ
key a = a.id

abbrev pub logged : ℕ → ℕ → Fields → String → Option Fields → Action
logged now id action status undo_action = record {
  id = id;
  action = action;
  undo_action = undo_action;
  status = status;
  created_at = now;
  undone = false;
}

-- `record`
unfoldable pub record_action : ℕ → Fields → String → Option Fields → UndoQueue → ℕ × UndoQueue
record_action now action status undo_action q =
    let id = suc q.last_id in
    (id, record q { rows = q.rows ++ logged now id action status undo_action ∷ []; last_id = id })

-- `get`
unfoldable pub get : ℕ → UndoQueue → Option Action
get action_id q = Table.select key action_id q.rows

unfoldable undo_found : ℕ → UndoQueue → Option Action → Bool × UndoQueue
undo_found action_id q none = (false, q)
undo_found action_id q (some a) = if a.undone then (false, q) else (
  true,
  record q { rows = Table.update key action_id (λ x. record x { undone = true }) q.rows },
)

-- `mark_undone`; the row with the identifier is hit if it is not undone yet.
unfoldable pub mark_undone : ℕ → UndoQueue → Bool × UndoQueue
unfolding get undo_found
mark_undone action_id q = undo_found action_id q (get action_id q)

-- ORDER BY id DESC
abbrev pub latest_first : Action → Action → Bool
latest_first a b = leb b.id a.id

-- `latest_pending`
unfoldable pub latest_pending : UndoQueue → Option Action
latest_pending q = first (order_by latest_first (filter (λ a. not a.undone) q.rows))

-- `recent`
unfoldable pub recent : ℕ → UndoQueue → List Action
recent limit q = take limit (order_by latest_first q.rows)

abbrev pub is_old : (now retention : ℕ) → Action → Bool
is_old now retention a = ltb (a.created_at + retention) now

-- `prune_older_than`
unfoldable pub prune_older_than : (now older_than : ℕ) → UndoQueue → ℕ × UndoQueue
prune_older_than now older_than q = if older_than == 0 then (0, q) else (
  count (is_old now older_than) q.rows,
  record q { rows = delete_where (is_old now older_than) q.rows },
)
