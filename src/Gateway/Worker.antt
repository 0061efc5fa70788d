-- ===== src/Gateway/Worker.antt =====
-- `GatewayWorker` of core/novaadapt_core/agent_gateway/worker.py. The runner is a parameter, and so is
-- Python's `str` of a JSON value, which only error texts hold.
pub mod Retries
pub mod Bounded
use nova_adapt.Base.{
  ℕ, String, Bool, true, false, not, Option, none, some, if◌then◌else◌, max, get_or, str_eq, ◌==◌,
}
use nova_adapt.Base.Text.{is_empty}
use nova_adapt.Base.Json.{
  truthy, Value, null, bool, num, str, arr, obj, Items, nil, cons, Fields, end, field, get,
}
use nova_adapt.Gateway.Queue.{JobRecord, Queue, claim_next, mark_done, mark_failed}

-- What a call of the runner did: it returned a value, or raised an exception with a text.
pub data Ran : Type 0 where
  returned : Value → Ran
  threw : String → Ran

pub record WorkerOutcome : Type 0 where
  pub processed : Bool
  pub job_id : String
  pub result : Fields
  pub error : String

-- The constructor's arguments, as it clamps them.
pub record WorkerConfig : Type 0 where
  pub runner : JobRecord → Ran
  pub to_text : Value → String
  pub retry_delay : ℕ
  pub max_attempts : ℕ

-- `result if isinstance(result, dict) else {}`
abbrev pub payload_of : Value → Fields
payload_of (obj d) = d
payload_of _ = end

-- `payload.get("ok", True)`
abbrev pub reports_ok : Fields → Bool
reports_ok payload = truthy (get_or (bool true) (get "ok" payload))

-- `payload.get("error") or "gateway runner reported failure"`
abbrev pub reported_error : (Value → String) → Fields → String
reported_error to_text payload =
    let v = get_or null (get "error" payload) in
    if truthy v then to_text v else "gateway runner reported failure"

-- The result of the body of the `try`, or the text of the exception that ends it.
abbrev pub try_result : WorkerConfig → JobRecord → Option Fields × String
try_result c job = elim (c.runner job) [
  | threw e ↦ (none, e)
  | returned v ↦
      if reports_ok (payload_of v)
      then (some (payload_of v), "")
      else (none, reported_error c.to_text (payload_of v))
]

finish : WorkerConfig → ℕ → JobRecord → Option Fields × String → Queue → WorkerOutcome × Queue
finish c later job (some payload, e) q = (
  record { processed = true; job_id = job.job_id; result = payload; error = "" },
  mark_done later job.job_id q,
)
finish c later job (none, e) q = (
  record { processed = true; job_id = job.job_id; result = end; error = e },
  (mark_failed later c.retry_delay c.max_attempts job.job_id q).1,
)

process_claimed : WorkerConfig → ℕ → Option JobRecord × Queue → WorkerOutcome × Queue
unfolding finish
process_claimed c later (none, q) =
    (record { processed = false; job_id = ""; result = end; error = "" }, q)
process_claimed c later (some job, q) = finish c later job (try_result c job) q

-- `process_once`: the clock is read when a job is claimed, and again when its end is recorded.
unfoldable pub process_once : WorkerConfig → (now later : ℕ) → Queue → WorkerOutcome × Queue
unfolding process_claimed
process_once c now later q = process_claimed c later (claim_next now q)
