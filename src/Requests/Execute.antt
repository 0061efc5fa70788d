-- ===== src/Requests/Execute.antt =====
-- `execute_idempotent` and `respond_idempotent` of core/novaadapt_core/server_idempotency_utils.py.
-- What a route's operation does to the rest of the server is a parameter, a function on a state `W`;
-- so are the hash of a payload, the test for the routes that take part, and Python's `str`.
pub mod Replay
use nova_adapt.Base.{
  ℕ, String, Bool, true, false, ◌||◌, not, Option, none, some, if◌then◌else◌, List, ◌∷◌, ltb,
}
use nova_adapt.Base.Text.{strip, is_empty}
use nova_adapt.Base.Json.{Value, Fields, obj, str, field, end, null, get}
use nova_adapt.Base.Exec.{Result, ok, raised}
use nova_adapt.Requests.Idempotency.{
  Clock, Key, IdempotencyStore, Verdict, new, conflict, replay, in_progress, begin, complete, clear,
}

-- `idempotency_key`, on the header's value; the header that is not there is empty.
abbrev pub idempotency_key : String → Option String
idempotency_key header = let value = strip header in if is_empty value then none else some value

-- The error that `begin` returns beside `conflict`, and beside `in_progress`.
abbrev pub error_payload : String → Value
error_payload text = obj (field "error" (str text) end)

abbrev pub reused_text : String
reused_text = "Idempotency key reused with different payload"

abbrev pub progress_text : String
progress_text = "Request with this idempotency key is already in progress"

-- What the handler holds: the store, if there is one, and the rest of the server.
abbrev pub Server : Type 0 → Type 0
Server W = Option IdempotencyStore × W

-- A status code, a payload, and whether it was replayed.
abbrev pub Response : Type 0
Response = ℕ × Value × Bool

abbrev pub Operation : Type 0 → Type 0
Operation W = W → Result (ℕ × Value) × W

module _ {W : Type 0} where
  plain : Option IdempotencyStore → Result (ℕ × Value) × W → Result Response × Server W
  plain store (ok (code, payload), w) = (ok (code, payload, false), (store, w))
  plain store (raised e, w) = (raised e, (store, w))

  -- The end of `execute_idempotent`: `operation()` was called, at the time `later` it has ended.
  settle : ℕ → Key → IdempotencyStore → Result (ℕ × Value) × W → Result Response × Server W
  settle later k s (ok (code, payload), w) =
      (ok (code, payload, false), (some (complete later k code payload s), w))
  settle later k s (raised e, w) = (raised e, (some (clear k s), w))

  after_begin : ℕ → Key → Operation W → W → Verdict × IdempotencyStore → Result Response × Server W
  unfolding settle
  after_begin later k operation w (new, s) = settle later k s (operation w)
  after_begin later k operation w (conflict, s) =
      (ok (409, error_payload reused_text, false), (some s, w))
  after_begin later k operation w (in_progress, s) =
      (ok (409, error_payload progress_text, false), (some s, w))
  after_begin later k operation w (replay code payload, s) = (ok (code, payload, true), (some s, w))

  with_key :
      (Fields → String)
      → Clock
      → ℕ
      → Bool
      → String
      → Fields
      → Operation W
      → Option String
      → Server W
      → Result Response × Server W
  unfolding plain after_begin
  with_key hash c later taking_part path payload operation (some key) (some s, w) =
      let k : Key = (key, ("POST", path)) in
      if taking_part
      then after_begin later k operation w (begin c k (hash payload) s)
      else plain (some s) (operation w)
  with_key hash c later taking_part path payload operation none (store, w) =
      plain store (operation w)
  with_key hash c later taking_part path payload operation (some key) (none, w) =
      plain none (operation w)

  -- `execute_idempotent`
  unfoldable pub execute_idempotent :
      (hash : Fields → String) (is_idempotent_route : String → Bool) (c : Clock) (later : ℕ)
      (header path : String) (payload : Fields)
      → Operation W
      → Server W
      → Result Response × Server W
  unfolding with_key
  execute_idempotent hash is_idempotent_route c later header path payload operation srv =
      with_key hash c later (is_idempotent_route path) path payload operation
        (idempotency_key header) srv

-- What `_audit_event` is called with, but for the category and the names that the route passes on.
pub record AuditCall : Type 0 where
  pub status : String
  pub entity_id : Option String
  pub payload : Option Fields

-- The calls on the handler: the audit event, then the JSON that is sent.
pub record Sent : Type 0 where
  pub audit : AuditCall
  pub code : ℕ
  pub body : Value
  pub replayed : Bool
  pub key : Option String

abbrev pub fields_of : Value → Option Fields
fields_of v = elim v [ obj f ↦ some f | _ ↦ none ]

module _ (to_text : Value → String) where
  abbrev id_in : String → Fields → Option String
  id_in k f = elim (get k f) [ none ↦ none | some null ↦ none | some v ↦ some (to_text v) ]

  abbrev pub resolve_entity : Option String → Option String → Value → Option String
  resolve_entity (some id) id_key v = some id
  resolve_entity none none v = none
  resolve_entity none (some k) v =
      if is_empty k then none else elim (fields_of v) [ none ↦ none | some f ↦ id_in k f ]

  abbrev pub sent_for :
      (header : String) (entity_id entity_id_key : Option String) → Response → Sent
  sent_for header entity_id entity_id_key (code, payload, replayed) = record {
    audit = record {
      status = if replayed then "replayed" else if ltb code 400 then "ok" else "error";
      entity_id = resolve_entity entity_id entity_id_key payload;
      payload = fields_of payload;
    };
    code = code;
    body = payload;
    replayed = replayed;
    key = idempotency_key header;
  }

  -- `respond_idempotent`: the calls on the handler, which end it.
  unfoldable pub respond_idempotent :
      {W : Type 0} (hash : Fields → String) (is_idempotent_route : String → Bool) (c : Clock)
      (later : ℕ) (header path : String) (payload : Fields)
      (entity_id entity_id_key : Option String)
      → Operation W
      → Server W
      → Result Sent × Server W
  respond_idempotent hash is_idempotent_route c later header path payload entity_id entity_id_key
        operation srv =
      let (r, srv') =
        execute_idempotent hash is_idempotent_route c later header path payload operation srv in
      elim r [
        | raised e ↦ (raised e, srv')
        | ok response ↦ (ok (sent_for header entity_id entity_id_key response), srv')
      ]
