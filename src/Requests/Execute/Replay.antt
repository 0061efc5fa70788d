-- ===== src/Requests/Execute/Replay.antt =====
-- A request that is sent twice.
use nova_adapt.Base.{
  ℕ, ◌+◌, ◌≤◌, ◌<◌, String, Bool, true, false, ◌≡◌, refl, ◌∙◌, Option, none, some, List, [], arith,
  All, beq_refl, string_eq, pair_eq, eq_iff,
}
use nova_adapt.Base.Json.{Value, Fields}
use nova_adapt.Base.Exec.{Result, ok, raised, Error}
use nova_adapt.Base.Table
use nova_adapt.Base.Table.Where.{select-none-delete_where}
use nova_adapt.Requests.Idempotency.{
  Clock, Key, IdempotencyStore, new, replay, select, entry_key, begin, complete, clear,
  cleanup_expired, is_expired,
}
use nova_adapt.Requests.Idempotency.Keeps.{Event, Spares, apply_all}
use nova_adapt.Requests.Idempotency.Once.{begin_replays}
use nova_adapt.Requests.Execute.{Operation, Server, Response, idempotency_key, execute_idempotent}

-- A request that takes part: its header has a key, and its route is one of those that replay.
pub record Request : Type 0 where
  pub header : String
  pub path : String
  pub payload : Fields
  pub key : String

abbrev pub key_of : Request → Key
key_of r = (r.key, ("POST", r.path))

pub record TakesPart (route : String → Bool) (r : Request) : Type 0 where
  pub keyed : idempotency_key r.header ≡ some r.key
  pub routed : route r.path ≡ true

module _ {W : Type 0} (hash : Fields → String) (route : String → Bool) where
  abbrev pub send : Clock → ℕ → Request → Operation W → Server W → Result Response × Server W
  send c later r operation srv =
      execute_idempotent hash route c later r.header r.path r.payload operation srv

  send-new :
      (c : Clock) (later : ℕ) (r : Request) (operation : Operation W) (s : IdempotencyStore) (w : W)
      (code : ℕ) (answer : Value) (w1 : W)
      → TakesPart route r
      → (begin c (key_of r) (hash r.payload) s).0 ≡ new
      → operation w ≡ (ok (code, answer), w1)
      → send c later r operation (some s, w) ≡ (
        ok (code, answer, false),
        (
          some (complete later (key_of r) code answer (begin c (key_of r) (hash r.payload) s).1),
          w1,
        ),
      )
  unfolding execute_idempotent
  send-new c later r operation s w code answer w1 t started ran =
      rw t.keyed (rw t.routed (rw started (rw ran refl)))

  send-replay :
      (c : Clock) (later : ℕ) (r : Request) (operation : Operation W) (s : IdempotencyStore) (w : W)
      (code : ℕ) (answer : Value)
      → TakesPart route r
      → (begin c (key_of r) (hash r.payload) s).0 ≡ replay code answer
      → send c later r operation (some s, w)
        ≡ (ok (code, answer, true), (some (begin c (key_of r) (hash r.payload) s).1, w))
  unfolding execute_idempotent
  send-replay c later r operation s w code answer t found = rw t.keyed (rw t.routed (rw found refl))

  module _ (r : Request) (t : TakesPart route r) (c : Clock) (later : ℕ) (s : IdempotencyStore)
      (w : W) (operation : Operation W) (w1 : W) where
    abbrev after : Option IdempotencyStore → List Event → Option IdempotencyStore
    after none evs = none
    after (some s) evs = some (apply_all evs s)

    module _ (code : ℕ) (answer : Value) (real : 0 < code)
        (started : (begin c (key_of r) (hash r.payload) s).0 ≡ new)
        (ran : operation w ≡ (ok (code, answer), w1)) where
      -- A request that takes part, is new and gets an answer with a code that is not 0, runs its
      -- operation once. Sent again within the retention time, it gets the same code and answer, marked
      -- as replayed, and its second operation does not touch the server's state: whatever other calls
      -- of the store came in between, if none completed or cleared the key.
      pub execute_once :
          (evs : List Event) (c' : Clock) (later' : ℕ) (operation' : Operation W) (w2 : W)
          → All (Spares (key_of r) (later + s.retention)) evs
          → c'.wall ≤ later + s.retention
          → let (response, srv) = send c later r operation (some s, w) in
            let (response', srv') = send c' later' r operation' (after srv.0 evs, w2) in
            (response ≡ ok (code, answer, false))
            × (srv.1 ≡ w1)
            × (response' ≡ ok (code, answer, true))
            × (srv'.1 ≡ w2)
      execute_once evs c' later' operation' w2 spare late =
          let first = send-new c later r operation s w code answer w1 t started ran in
          let k = key_of r in
          let h = hash r.payload in
          let done = complete later k code answer (begin c k h s).1 in
          let verdict : (begin c' k h (apply_all evs done)).0 ≡ replay code answer =
            begin_replays c k h s started [] evs later code answer c' h tt spare late real
            ∙ ground (arith, eq_iff h h) in
          let second =
            send-replay c' later' r operation' (apply_all evs done) w2 code answer t verdict in
          rw first (refl, refl, rw second refl, rw second refl)

    settled_raise :
        (e : Error)
        → (begin c (key_of r) (hash r.payload) s).0 ≡ new
        → operation w ≡ (raised e, w1)
        → send c later r operation (some s, w)
          ≡ (raised e, (some (clear (key_of r) (begin c (key_of r) (hash r.payload) s).1), w1))
    unfolding execute_idempotent
    settled_raise e started ran = rw t.keyed (rw t.routed (rw started (rw ran refl)))

    begin-cleared :
        (k : Key) (c' : Clock) (h : String) (q : IdempotencyStore)
        → (begin c' k h (clear k q)).0 ≡ new
    unfolding begin clear cleanup_expired
    begin-cleared k c' h q =
        let gone : select k (clear k q) ≡ none =
          Table.select-delete entry_key k k q.rows ∙ ground (arith, beq_refl k) in
        let gone' : select k (cleanup_expired false c' (clear k q)).1 ≡ none = ground (
          arith,
          gone,
          select-none-delete_where entry_key (is_expired c'.wall (clear k q)) k (clear k q).rows
              gone,
        ) in
        rw gone' refl

    module _ (e : Error) (started : (begin c (key_of r) (hash r.payload) s).0 ≡ new)
        (failed : operation w ≡ (raised e, w1)) where
      -- A request that takes part and is new, and whose operation raises, raises the same error. What
      -- the operation did stays done, and the request may be sent again: its operation then runs, and
      -- its answer is returned, not replayed.
      pub execute_retry :
          (c' : Clock) (later' : ℕ) (operation' : Operation W) (code : ℕ) (answer : Value) (w2 : W)
          → operation' w1 ≡ (ok (code, answer), w2)
          → let (response, srv) = send c later r operation (some s, w) in
            let (response', srv') = send c' later' r operation' srv in
            (response ≡ raised e)
            × (srv.1 ≡ w1)
            × (response' ≡ ok (code, answer, false))
            × (srv'.1 ≡ w2)
      execute_retry c' later' operation' code answer w2 ran =
          let first = settled_raise e started failed in
          let k = key_of r in
          let cleared = clear k (begin c k (hash r.payload) s).1 in
          let second =
            send-new c' later' r operation' cleared w1 code answer w2 t
              (begin-cleared k c' (hash r.payload) (begin c k (hash r.payload) s).1) ran in
          rw first (refl, refl, rw second refl, rw second refl)
