-- ===== src/Server/Streams.antt =====
-- The streams of server-sent events of core/novaadapt_core/server_stream_utils.py. A loop sleeps between
-- its rounds: the states that the rounds meet, until the deadline, are a list. `accepts` says of a write
-- whether the client is still there, given what was sent before. The JSON text of a record is a
-- parameter.
pub mod Complete
use nova_adapt.Base.{
  ℕ, String, Bool, true, false, Option, none, some, List, [], ◌∷◌, ◌++◌, str_eq, any, max, map,
}
use mathlib.Core.List.{reverse}
use nova_adapt.Base.Json.{Value}
use nova_adapt.Plans.PlanStore.{PlanRecord}
use nova_adapt.Requests.Jobs.{JobManager}
use nova_adapt.Requests.Jobs.Views.{JobView, get}
use nova_adapt.Service.Approve.{get_plan}
use nova_adapt.Service.Actions.{Service}
use nova_adapt.Runtime.AuditStore.{Event, AuditStore, list}

abbrev is_last : String → Option String → Bool
is_last snapshot none = false
is_last snapshot (some last) = str_eq snapshot last

-- A server-sent event.
pub data Message : Type 0 where
  job : JobView → String → Message
  plan : PlanRecord → String → Message
  audit : Event → Message
  not_found : String → String → Message
  ended : String → String → String → Message
  timed_out : Option String → String → Message

-- A stream is refused, or it has sent some events.
pub data Streamed : Type 0 where
  refused : String → Streamed
  streamed : List Message → Streamed

module _ (accepts : List Message → Message → Bool) where
  -- `write_sse_event`
  unfoldable pub write_sse_event : Message → List Message → Bool × List Message
  write_sse_event m sent = elim (accepts sent m) [
    | true ↦ (true, sent ++ m ∷ [])
    | false ↦ (false, sent)
  ]

  -- The loops of `stream_job_events` and `stream_plan_events`, which differ in what they read and send.
  module _ {A : Type 0} (snapshot status : A → String) (to_message : A → Message) (missing : String)
      (final_statuses : List String) (id request_id : String) where
    -- What was sent last is not sent again.
    unfoldable pub send_change :
        Option String → A → List Message → Option (Option String) × List Message
    unfolding write_sse_event
    send_change last a sent = elim (is_last (snapshot a) last) [
      | true ↦ (some last, sent)
      | false ↦
          let (ok, sent') = write_sse_event (to_message a) sent in
          elim ok [ true ↦ (some (some (snapshot a)), sent') | false ↦ (none, sent') ]
    ]

    -- The rounds after which the deadline has passed.
    unfoldable pub follow : Option String → List (Option A) → List Message → List Message
    unfolding send_change write_sse_event
    follow last [] sent = (write_sse_event (timed_out (some id) request_id) sent).1
    follow last (none ∷ later) sent = (write_sse_event (not_found missing id) sent).1
    follow last (some a ∷ later) sent =
        let (kept, sent') = send_change last a sent in
        elim kept [
          | none ↦ sent'
          | some last' ↦ elim (any (str_eq (status a)) final_statuses) [
            | true ↦ (write_sse_event (ended id (status a) request_id) sent').1
            | false ↦ follow last' later sent'
          ]
        ]

  -- The rows of one round, oldest first; nothing is left to do if the client has gone.
  unfoldable pub send_rows : List Event → ℕ → List Message → Option ℕ × List Message
  unfolding write_sse_event
  send_rows [] last sent = (some last, sent)
  send_rows (e ∷ es) last sent =
      let (ok, sent') = write_sse_event (audit e) sent in
      elim ok [ true ↦ send_rows es (max last e.id) sent' | false ↦ (none, sent') ]

  abbrev pub new_rows : ℕ → Option AuditStore → List Event
  new_rows last none = []
  new_rows last (some s) =
      list 200 (record { category = ""; entity_type = ""; entity_id = ""; since_id = some last }) s

  -- `stream_audit_events`, with the position that it keeps.
  unfoldable pub stream_from : String → ℕ → List (Option AuditStore) → List Message → List Message
  unfolding send_rows write_sse_event
  stream_from request_id last [] sent = (write_sse_event (timed_out none request_id) sent).1
  stream_from request_id last (store ∷ later) sent =
      let (kept, sent') = send_rows (reverse (new_rows last store)) last sent in
      elim kept [ none ↦ sent' | some last' ↦ stream_from request_id last' later sent' ]

  -- `stream_audit_events`
  unfoldable pub stream_audit_events : String → ℕ → List (Option AuditStore) → List Message
  unfolding stream_from
  stream_audit_events request_id since rounds = stream_from request_id since rounds []

  -- `stream_job_events`; the first state is the one of the test that the job exists.
  unfoldable pub stream_job_events :
      (snapshot : JobView → String) (to_text : Value → String)
      → String
      → String
      → JobManager
      → List JobManager
      → Streamed
  unfolding follow
  stream_job_events snapshot to_text request_id id m rounds = elim (get to_text id m) [
    | none ↦ refused "Job not found"
    | some _ ↦ streamed (
        follow snapshot (λ v. v.record_of.status) (λ v. job v request_id) "Job not found"
          ("succeeded" ∷ "failed" ∷ "canceled" ∷ []) id request_id none
          (map (get to_text id) rounds) [])
  ]

  -- `stream_plan_events`
  unfoldable pub stream_plan_events :
      {W : Type 0} (snapshot : PlanRecord → String)
      → String
      → String
      → Service W
      → List (Service W)
      → Streamed
  unfolding follow
  stream_plan_events snapshot request_id id s rounds = elim (get_plan id s) [
    | none ↦ refused "Plan not found"
    | some _ ↦ streamed (
        follow snapshot (λ p. p.status) (λ p. plan p request_id) "Plan not found"
          ("approved" ∷ "rejected" ∷ "executed" ∷ "failed" ∷ []) id request_id none
          (map (get_plan id) rounds) [])
  ]
