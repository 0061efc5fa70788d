-- ===== src/Gateway/Schedulers/Webhooks.antt =====
-- `WebhookScheduler` of core/novaadapt_core/agent_gateway/scheduler/webhooks.py.
use nova_adapt.Base.{String, Option, none, some, List, if◌then◌else◌, string_eq}
use nova_adapt.Base.Text.{strip, is_empty}
use nova_adapt.Base.Lower.{lower}
use nova_adapt.Base.Json.{Fields, str, obj, put}
use nova_adapt.Base.Exec.{Exec, ok, raised, value_error}
use nova_adapt.Base.Table

abbrev pub Routes : Type 0
Routes = List (String × Fields)

abbrev pub route_key : String × Fields → String
route_key r = r.0

-- `register`
unfoldable pub register : String → Fields → Exec Routes (Unit {0})
register event_name payload_template routes =
    let key = lower (strip event_name) in
    if is_empty key then (raised (value_error "event_name is required"), routes) else (
      ok tt,
      Table.upsert route_key (key, payload_template) (λ _. (key, payload_template)) routes,
    )

merged : String → Option Fields → Option (String × Fields) → Option Fields
merged key event_payload none = none
merged key none (some (_, template)) = some (put "webhook_event" (str key) template)
merged key (some event_payload) (some (_, template)) =
    some (put "webhook_payload" (obj event_payload) (put "webhook_event" (str key) template))

-- `trigger`
unfoldable pub trigger : String → Option Fields → Routes → Option Fields
unfolding merged
trigger event_name event_payload routes =
    let key = lower (strip event_name) in
    merged key event_payload (Table.select route_key key routes)
