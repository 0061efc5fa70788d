-- ===== src/Runtime/AuditStore.antt =====
-- `AuditStore` of core/novaadapt_core/audit_store.py, and `events_wait` of core/novaadapt_core/service.py.
-- SQLite gives each row an identifier that no row had before (AUTOINCREMENT). A time is a number; an
-- empty text is taken for a filter that is not given, as the code does. Retries of SQLite are left out.
pub mod Watch
use nova_adapt.Base.{
  ℕ, suc, ◌+◌, ◌-◌, String, Bool, true, false, not, ◌&&◌, ◌||◌, ◌==◌, Option, none, some, List, [],
  ◌∷◌, ◌++◌, if◌then◌else◌, ltb, leb, str_eq, max, count, filter, take, nat_eq,
}
use mathlib.Core.List.{reverse}
use nova_adapt.Base.Text.{is_empty}
use nova_adapt.Base.Json.{Fields}
use nova_adapt.Base.Exec.{Exec, Result, ok, raised, runtime_error}
use nova_adapt.Base.Table
use nova_adapt.Base.Table.Where.{delete_where}
use nova_adapt.Base.Order.{order_by}

-- A row of the table `audit_events`.
pub record Event : Type 0 where
  pub id : ℕ
  pub created_at : ℕ
  pub category : String
  pub action : String
  pub status : String
  pub request_id : Option String
  pub entity_type : Option String
  pub entity_id : Option String
  pub payload : Option Fields

-- The table, the largest identifier that was ever given, and the store's settings.
pub record AuditStore : Type 0 where
  pub rows : List Event
  pub last_id : ℕ
  pub retention : ℕ
  pub cleanup_interval : ℕ
  pub last_cleanup : ℕ

-- `time.time()` and `time.monotonic()`, both with `_now_iso()`.
pub record Clock : Type 0 where
  pub wall : ℕ
  pub monotonic : ℕ

-- The arguments of `append`.
pub record NewEvent : Type 0 where
  pub category : String
  pub action : String
  pub status : String
  pub request_id : Option String
  pub entity_type : Option String
  pub entity_id : Option String
  pub payload : Option Fields

abbrev pub key : Event → ℕ
key e = e.id

abbrev pub is_expired : ℕ → ℕ → Event → Bool
is_expired now retention e = ltb (e.created_at + retention) now

-- A cleanup that was made a short time ago is not made again, unless it is forced.
abbrev pub is_throttled : Bool → Clock → AuditStore → Bool
is_throttled force c s =
    not force && ltb 0 s.cleanup_interval && ltb (c.monotonic - s.last_cleanup) s.cleanup_interval

-- `_cleanup_expired_locked`
unfoldable pub cleanup_expired : Bool → Clock → AuditStore → ℕ × AuditStore
cleanup_expired force c s = if s.retention == 0 || is_throttled force c s then (0, s) else (
  count (is_expired c.wall s.retention) s.rows,
  record s {
    rows = delete_where (is_expired c.wall s.retention) s.rows;
    last_cleanup = c.monotonic;
  },
)

-- `prune_expired`
abbrev pub prune_expired : Clock → AuditStore → ℕ × AuditStore
prune_expired c s = cleanup_expired true c s

abbrev pub new_event : ℕ → ℕ → NewEvent → Event
new_event now id n = record {
  id = id;
  created_at = now;
  category = n.category;
  action = n.action;
  status = n.status;
  request_id = n.request_id;
  entity_type = n.entity_type;
  entity_id = n.entity_id;
  payload = n.payload;
}

-- `_append_once`
unfoldable pub append_once : Clock → NewEvent → AuditStore → AuditStore
unfolding cleanup_expired
append_once c n s =
    let s' = (cleanup_expired false c s).1 in
    record s' {
      rows = s'.rows ++ new_event c.wall (suc s'.last_id) n ∷ [];
      last_id = suc s'.last_id;
    }

-- `get`
unfoldable pub get : ℕ → AuditStore → Option Event
get event_id s = Table.select key event_id s.rows

unfoldable pub read_back : Option Event → AuditStore → Result Event × AuditStore
read_back none s = (raised (runtime_error "Failed to read appended audit event"), s)
read_back (some e) s = (ok e, s)

-- `append`
unfoldable pub append : Clock → NewEvent → Exec AuditStore Event
unfolding append_once get read_back
append c n s = let s' = append_once c n s in read_back (get s'.last_id s') s'

-- The filters of `list`.
pub record Filters : Type 0 where
  pub category : String
  pub entity_type : String
  pub entity_id : String
  pub since_id : Option ℕ

abbrev equals_some : String → Option String → Bool
equals_some wanted none = false
equals_some wanted (some s) = str_eq s wanted

abbrev is_after : Option ℕ → ℕ → Bool
is_after none id = true
is_after (some since) id = ltb since id

-- The WHERE clause.
unfoldable pub matches : Filters → Event → Bool
matches f e =
    (is_empty f.category || str_eq e.category f.category)
    && (is_empty f.entity_type || equals_some f.entity_type e.entity_type)
    && (is_empty f.entity_id || equals_some f.entity_id e.entity_id)
    && is_after f.since_id e.id

-- ORDER BY id DESC
abbrev pub latest_first : Event → Event → Bool
latest_first a b = leb b.id a.id

-- `list`
unfoldable pub list : ℕ → Filters → AuditStore → List Event
list limit f s = take (max 1 limit) (order_by latest_first (filter (matches f) s.rows))

-- A round of the loop of `events_wait`: what it returns if there is something to return.
unfoldable pub watch : ℕ → Filters → AuditStore → List Event
unfolding list
watch limit f s = reverse (list (max 1 limit) f s)

-- `events_wait`: the stores that its rounds meet until the deadline, one after the other.
unfoldable pub events_wait : ℕ → Filters → List AuditStore → List Event
unfolding watch
events_wait limit f [] = []
events_wait limit f (s ∷ later) = elim (watch limit f s) [
  | [] ↦ events_wait limit f later
  | e ∷ es ↦ e ∷ es
]

-- An empty store.
abbrev pub make_store : ℕ → ℕ → AuditStore
make_store retention cleanup_interval = record {
  rows = [];
  last_id = 0;
  retention = retention;
  cleanup_interval = cleanup_interval;
  last_cleanup = 0;
}
