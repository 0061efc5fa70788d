-- ===== src/Gateway/Queue.antt =====
-- `GatewayJobQueue` of core/novaadapt_core/agent_gateway/job_queue.py. A time is a number of
-- microseconds, and the empty text that stands for no time is `none`.
pub mod Claim
pub mod Marks
pub mod Budget
use Prim.Native.Nat.{Ordering}
use Prim.Native.String.{compare}
use nova_adapt.Base.{
  second, ℕ, suc, ◌+◌, String, Bool, true, false, ◌&&◌, ◌||◌, Option, none, some, List, [], ◌∷◌,
  ◌++◌, map, if◌then◌else◌, leb, str_eq, filter, max, string_eq, pair_eq, get_or,
}
use nova_adapt.Base.Text.{or_else}
use nova_adapt.Base.Json.{Fields}
use nova_adapt.Base.Table
use nova_adapt.Base.Order.{order_by, first}
use nova_adapt.Base.Exec.{ok, raised, Exec, pure, ◌>>=◌, ◌>>◌, integrity_error}

pub record JobRecord : Type 0 where
  pub job_id : String
  pub status : String
  pub payload : Fields
  pub workspace_id : String
  pub profile_name : String
  pub reply_to : Fields
  pub attempts : ℕ
  pub next_retry_at : Option ℕ
  pub created_at : ℕ
  pub updated_at : ℕ
  pub parent_job_id : String

-- A row of the table `deliveries`.
pub record Target : Type 0 where
  pub job_id : String
  pub connector : String
  pub address : String
  pub token : String
  pub status : String
  pub last_error : String
  pub last_attempt_at : Option ℕ

-- The database: its two tables.
pub record Queue : Type 0 where
  pub jobs : List JobRecord
  pub deliveries : List Target

abbrev pub job_key : JobRecord → String
job_key r = r.job_id

-- PRIMARY KEY(job_id, connector, address)
abbrev pub target_key : Target → String × (String × String)
target_key t = (t.job_id, (t.connector, t.address))

abbrev pub select_job : String → Queue → Option JobRecord
select_job job_id q = Table.select job_key job_id q.jobs

abbrev pub write_job : String → (JobRecord → JobRecord) → Queue → Queue
write_job job_id f q = record q { jobs = Table.update job_key job_id f q.jobs }

-- The row that `enqueue` inserts.
abbrev pub queued_job :
    (now : ℕ) (payload : Fields) (job_id workspace_id profile_name : String)
    (reply_to : Option Fields) (parent_job_id : String)
    → JobRecord
queued_job now payload job_id workspace_id profile_name reply_to parent_job_id = record {
  job_id = job_id;
  status = "queued";
  payload = payload;
  workspace_id = or_else workspace_id "default";
  profile_name = or_else profile_name "unleashed_local";
  reply_to = get_or Fields.end reply_to;
  attempts = 0;
  next_retry_at = none;
  created_at = now;
  updated_at = now;
  parent_job_id = parent_job_id;
}

-- `enqueue`; `fresh` is the identifier that `uuid4` makes up.
unfoldable pub enqueue :
    (now : ℕ) (fresh : String) (payload : Fields) (job_id workspace_id profile_name : String)
    (reply_to : Option Fields) (parent_job_id : String)
    → Exec Queue String
enqueue now fresh payload job_id workspace_id profile_name reply_to parent_job_id q =
    let resolved = or_else job_id fresh in
    let row = queued_job now payload resolved workspace_id profile_name reply_to parent_job_id in
    elim (Table.insert job_key row q.jobs) [
      | none ↦ (raised integrity_error, q)
      | some jobs ↦ (ok resolved, record q { jobs = jobs })
    ]

-- `_row_to_job`; the columns `payload_json` and `reply_to_json` hold dicts, as `enqueue` wrote them.
abbrev pub row_to_job : JobRecord → JobRecord
row_to_job r = record r {
  workspace_id = or_else r.workspace_id "default";
  profile_name = or_else r.profile_name "unleashed_local";
}

-- `next_retry_at != '' AND next_retry_at <= ?`
abbrev pub retry_due : ℕ → Option ℕ → Bool
retry_due now none = false
retry_due now (some t) = leb t now

-- The WHERE clause of `claim_next`.
abbrev pub claimable : ℕ → JobRecord → Bool
claimable now r =
    str_eq r.status "queued" || (str_eq r.status "retry_wait" && retry_due now r.next_retry_at)

-- ORDER BY created_at ASC
abbrev pub oldest_first : JobRecord → JobRecord → Bool
oldest_first a b = leb a.created_at b.created_at

abbrev pub next_job : ℕ → Queue → Option JobRecord
next_job now q = first (order_by oldest_first (filter (claimable now) q.jobs))

abbrev pub running : ℕ → JobRecord → JobRecord
running now r = record r { status = "running"; updated_at = now }

claim : ℕ → Queue → Option JobRecord → Option JobRecord × Queue
claim now q none = (none, q)
claim now q (some row) = (some (row_to_job (running now row)), write_job row.job_id (running now) q)

-- `claim_next`
unfoldable pub claim_next : ℕ → Queue → Option JobRecord × Queue
unfolding claim
claim_next now q = claim now q (next_job now q)

-- `mark_done`
unfoldable pub mark_done : ℕ → String → Queue → Queue
mark_done now job_id = write_job job_id (λ r. record r { status = "done"; updated_at = now })

-- The columns that `mark_failed` writes: `attempts` counts this failure too.
abbrev pub failed_job : (now retry_delay max_attempts attempts : ℕ) → JobRecord → JobRecord
failed_job now retry_delay max_attempts attempts r =
    if leb (max 1 max_attempts) attempts
    then record r { status = "failed"; attempts = attempts; next_retry_at = none; updated_at = now }
    else record r {
      status = "retry_wait";
      attempts = attempts;
      next_retry_at = some (now + max second retry_delay);
      updated_at = now;
    }

mark_failed_row :
    (now retry_delay max_attempts : ℕ) → String → Queue → Option JobRecord → String × Queue
mark_failed_row now retry_delay max_attempts job_id q none = ("missing", q)
mark_failed_row now retry_delay max_attempts job_id q (some row) =
    let attempts = row.attempts + 1 in
    (
      if leb (max 1 max_attempts) attempts then "failed" else "retry_wait",
      write_job job_id (failed_job now retry_delay max_attempts attempts) q,
    )

-- `mark_failed`
unfoldable pub mark_failed : (now retry_delay max_attempts : ℕ) → String → Queue → String × Queue
unfolding mark_failed_row
mark_failed now retry_delay max_attempts job_id q =
    mark_failed_row now retry_delay max_attempts job_id q (select_job job_id q)

-- `get_job`
unfoldable pub get_job : String → Queue → Option JobRecord
get_job job_id q = elim (select_job job_id q) [ none ↦ none | some r ↦ some (row_to_job r) ]

-- `upsert_delivery`
unfoldable pub upsert_delivery :
    (job_id connector address token status last_error : String) → Queue → Queue
upsert_delivery job_id connector address token status last_error q =
    let row : Target = record {
      job_id = job_id;
      connector = connector;
      address = address;
      token = token;
      status = status;
      last_error = last_error;
      last_attempt_at = none;
    } in
    record q {
      deliveries =
          Table.upsert target_key row
            (λ t. record t { token = token; status = status; last_error = last_error })
            q.deliveries;
    }

abbrev pub text_le : String → String → Bool
text_le s t = elim (compare s t) [ Ordering.gt ↦ false | _ ↦ true ]

-- ORDER BY connector, address
abbrev pub by_target : Target → Target → Bool
by_target a b =
    if str_eq a.connector b.connector
    then text_le a.address b.address
    else text_le a.connector b.connector

abbrev pub is_pending : String → Target → Bool
is_pending job_id t =
    str_eq t.job_id job_id && (str_eq t.status "pending" || str_eq t.status "failed")

-- `list_pending_deliveries`
unfoldable pub list_pending_deliveries : String → Queue → List Target
list_pending_deliveries job_id q = order_by by_target (filter (is_pending job_id) q.deliveries)

-- `mark_delivery`
unfoldable pub mark_delivery :
    (now : ℕ) (job_id connector address status last_error : String) → Queue → Queue
mark_delivery now job_id connector address status last_error q = record q {
  deliveries =
      Table.update target_key (job_id, (connector, address))
        (λ t. record t { status = status; last_error = last_error; last_attempt_at = some now })
        q.deliveries;
}
