-- ===== src/Server/Tests.antt =====
-- The theorems at concrete inputs.
use nova_adapt.Base.{
  ℕ, ◌+◌, count, leb, max, ◌≤◌, refl, arith, String, ◌≡◌, ltb, some, none, List, [], ◌∷◌, ◌++◌, map,
  filter, length, All,
}
use nova_adapt.Base.Text.{strip}
use nova_adapt.Base.Order.{order_by}
use nova_adapt.Base.Table
use nova_adapt.Runtime.AuditStore.{
  NewEvent, make_store, cleanup_expired, append_once, get, read_back, append, matches, list,
}
use nova_adapt.Runtime.AuditStore.Watch.{Call, appends, prunes, apply_all}
use nova_adapt.Server.Streams.{
  audit, timed_out, write_sse_event, send_rows, stream_from, stream_audit_events,
}
use nova_adapt.Server.Limiter.{make_limiter, allow}
use nova_adapt.Server.Limiter.Limits.{through, allowed_bounded}
use nova_adapt.Server.Streams.Complete.{connected, visited, after_rounds, audit_stream_complete}

abbrev event_of : String → NewEvent
event_of action = record {
  category = "plans";
  action = action;
  status = "ok";
  request_id = none;
  entity_type = some "plan";
  entity_id = none;
  payload = none;
}

abbrev before : List Call
before = appends (record { wall = 1; monotonic = 1 }) (event_of "created") ∷ []

abbrev batches : List (List Call)
batches =
    (appends (record { wall = 2; monotonic = 2 }) (event_of "approved")
      ∷ appends (record { wall = 3; monotonic = 3 }) (event_of "executed")
      ∷ [])
    ∷ []
    ∷ (prunes (record { wall = 9; monotonic = 9 })
        ∷ appends (record { wall = 9; monotonic = 9 }) (event_of "undone")
        ∷ [])
    ∷ []

batches-few : All (λ calls. length calls ≤ 200) batches
batches-few = (omega arith, (omega arith, (omega arith, tt)))

audit_stream_complete_example :
    let s = apply_all before (make_store 0 5) in
    stream_audit_events connected "r" s.last_id (visited batches s)
    ≡ map audit (filter (λ e. ltb s.last_id e.id) (after_rounds batches s).rows)
      ++ timed_out none "r" ∷ []
audit_stream_complete_example = audit_stream_complete 5 before batches "r" batches-few

sent_messages :
    length
      (stream_audit_events connected "r" 1 (visited batches (apply_all before (make_store 0 5))))
    ≡ 4
unfolding stream_audit_events stream_from send_rows write_sse_event list order_by matches append
    append_once cleanup_expired get read_back Table.select
sent_messages = refl

-- Two requests for a second; the third one is refused, and the client is let through again later.
abbrev knocks : List (ℕ × String)
knocks = (1, "10.0.0.7") ∷ (2, " 10.0.0.7") ∷ (3, "10.0.0.7") ∷ (4, "") ∷ (9, "10.0.0.7") ∷ []

allowed_bounded_example :
    count (λ t. leb 10 (t + 5)) (through "10.0.0.7" knocks [] (make_limiter 60 2 5 0)) ≤ max 1 2
allowed_bounded_example =
    allowed_bounded "10.0.0.7" 60 2 5 0 knocks 10 (omega arith)
      (omega arith, (omega arith, (omega arith, (omega arith, (omega arith, tt))))) (omega arith)

let_through : through "10.0.0.7" knocks [] (make_limiter 60 2 5 0) ≡ 1 ∷ 2 ∷ 9 ∷ []
unfolding allow strip Table.select Table.update Table.upsert
let_through = refl
