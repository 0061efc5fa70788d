-- ===== src/Requests/Idempotency.antt =====
-- `IdempotencyStore` of core/novaadapt_core/idempotency_store.py. A time is a number of microseconds.
-- The hash of a payload, SHA-256 of its canonical JSON text, is a parameter. JSON text that is written
-- is read back as the same value.
pub mod Keeps
pub mod Once
use nova_adapt.Base.{
  ℕ, ◌+◌, String, Bool, true, false, ◌&&◌, ◌==◌, not, Option, none, some, List, if◌then◌else◌, ltb,
  leb, str_eq, get_or, count, ◌∷◌, [], ◌++◌, string_eq, pair_eq,
}
use nova_adapt.Base.Json.{Value, obj, end, Fields}
use nova_adapt.Base.Table
use nova_adapt.Base.Table.Where.{delete_where}

-- A row of the table `idempotency_entries`.
pub record Entry : Type 0 where
  pub key : String
  pub method : String
  pub path : String
  pub payload_hash : String
  pub status : String
  pub status_code : Option ℕ
  pub response : Option Value
  pub created_at : ℕ
  pub updated_at : ℕ

pub record IdempotencyStore : Type 0 where
  pub retention : ℕ
  pub cleanup_interval : ℕ
  pub last_cleanup : ℕ
  pub rows : List Entry

-- `time.time` and `time.monotonic`
pub record Clock : Type 0 where
  pub wall : ℕ
  pub monotonic : ℕ

-- PRIMARY KEY (key, method, path)
abbrev pub Key : Type 0
Key = String × (String × String)

abbrev pub entry_key : Entry → Key
entry_key e = (e.key, (e.method, e.path))

-- What `begin` returns: its first component is the constructor's name. The two texts that go with
-- `conflict` and `in_progress` are in `error_of`.
pub data Verdict : Type 0 where
  new : Verdict
  conflict : Verdict
  replay : ℕ → Value → Verdict
  in_progress : Verdict

-- `updated_at < cutoff`
abbrev pub is_expired : ℕ → IdempotencyStore → Entry → Bool
is_expired wall s e = ltb (e.updated_at + s.retention) wall

-- Whether the last clean-up is too recent for another one.
abbrev pub is_throttled : Bool → Clock → IdempotencyStore → Bool
is_throttled force c s =
    not force && ltb 0 s.cleanup_interval && ltb c.monotonic (s.last_cleanup + s.cleanup_interval)

-- `_cleanup_expired_locked`, with the number of rows that it removes
unfoldable pub cleanup_expired : Bool → Clock → IdempotencyStore → ℕ × IdempotencyStore
cleanup_expired force c s =
    if s.retention == 0 then (0, s) else if is_throttled force c s then (0, s) else (
      count (is_expired c.wall s) s.rows,
      record s { rows = delete_where (is_expired c.wall s) s.rows; last_cleanup = c.monotonic },
    )

-- `prune_expired`
unfoldable pub prune_expired : Clock → IdempotencyStore → ℕ × IdempotencyStore
unfolding cleanup_expired
prune_expired c s = cleanup_expired true c s

-- The row that `begin` inserts.
abbrev pub fresh_entry : ℕ → Key → String → Entry
fresh_entry now k hash = record {
  key = k.0;
  method = k.1.0;
  path = k.1.1;
  payload_hash = hash;
  status = "in_progress";
  status_code = none;
  response = none;
  created_at = now;
  updated_at = now;
}

-- `int(status_code or 200)`
abbrev pub code_or_200 : Option ℕ → ℕ
code_or_200 none = 200
code_or_200 (some n) = if n == 0 then 200 else n

-- The end of `begin`, on a row that is there.
abbrev pub verdict_on : String → Entry → Verdict
verdict_on hash e =
    if not (str_eq e.payload_hash hash)
    then conflict
    else if str_eq e.status "completed"
    then replay (code_or_200 e.status_code) (get_or (obj end) e.response)
    else in_progress

abbrev pub select : Key → IdempotencyStore → Option Entry
select k s = Table.select entry_key k s.rows

begin_on : ℕ → Key → String → IdempotencyStore → Option Entry → Verdict × IdempotencyStore
begin_on now k hash s none = (new, record s { rows = s.rows ++ fresh_entry now k hash ∷ [] })
begin_on now k hash s (some e) = (verdict_on hash e, s)

-- `begin`, on the hash of the payload; `k` is the triple of key, method and path.
unfoldable pub begin : Clock → Key → String → IdempotencyStore → Verdict × IdempotencyStore
unfolding cleanup_expired begin_on
begin c k hash s =
    let (_, s') = cleanup_expired false c s in begin_on c.wall k hash s' (select k s')

abbrev pub completed : ℕ → ℕ → Value → Entry → Entry
completed now code payload e = record e {
  status = "completed";
  status_code = some code;
  response = some payload;
  updated_at = now;
}

-- `complete`
unfoldable pub complete : ℕ → Key → ℕ → Value → IdempotencyStore → IdempotencyStore
complete now k code payload s = record s {
  rows = Table.update entry_key k (completed now code payload) s.rows;
}

-- `clear`
unfoldable pub clear : Key → IdempotencyStore → IdempotencyStore
clear k s = record s { rows = Table.delete entry_key k s.rows }
