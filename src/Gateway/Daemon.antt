-- ===== src/Gateway/Daemon.antt =====
-- `NovaAgentDaemon` of core/novaadapt_core/agent_gateway/daemon.py, and `assert_no_llm_env` of
-- guards.py. What the connectors' `listen` returned is an argument of each turn. Python's `str` and
-- `json.dumps` of a value are parameters: no branch depends on the texts that they make, but for
-- whether they are blank.
pub mod Guards
use Prim.Native.String
use nova_adapt.Base.{
  ℕ, suc, ◌+◌, String, Bool, true, false, not, ◌||◌, Option, none, some, List, [], ◌∷◌,
  if◌then◌else◌, get_or,
}
use nova_adapt.Base.Text.{strip, is_empty, or_else}
use nova_adapt.Base.Json.{Value, null, str, obj, Fields, end, field, get, truthy}
use nova_adapt.Base.Exec.{Result, ok, raised, runtime_error}
use nova_adapt.Gateway.Queue.{Queue, enqueue}
use nova_adapt.Gateway.Worker.{WorkerConfig, WorkerOutcome, process_once}
use nova_adapt.Gateway.Delivery.{Post, Resolver, register_reply_target, deliver}
use nova_adapt.Gateway.Router.{GatewayRouter, Incoming, route}

pub record DaemonConfig : Type 0 where
  pub worker : WorkerConfig
  pub resolver : Resolver
  pub router : GatewayRouter
  pub dumps : Fields → String
  -- the identifiers that `uuid4` makes up, in order
  pub uuid : ℕ → String

pub record Daemon : Type 0 where
  pub post : Post
  pub made : ℕ

-- The messages that each connector's `listen` returned, by the connector's name.
abbrev pub Inbox : Type 0
Inbox = List (String × List Fields)

-- `d.get(k) if isinstance(d.get(k), dict) else {}`
abbrev pub dict_at : String → Fields → Fields
dict_at k d = elim (get_or null (get k d)) [ obj f ↦ f | _ ↦ end ]

module _ (to_text : Value → String) where
  -- `str(d.get(k) or "")`
  abbrev pub text_at : String → Fields → String
  text_at k d = let v = get_or null (get k d) in if truthy v then to_text v else ""

  abbrev pub incoming_of : Fields → Incoming
  incoming_of d = record {
    channel = text_at "channel" d;
    connector = text_at "connector" d;
    workspace_id = text_at "workspace_id" (dict_at "metadata" d);
    profile_name = text_at "profile_name" (dict_at "metadata" d);
    policy_profile = text_at "policy_profile" (dict_at "metadata" d);
  }

module _ (c : DaemonConfig) where
  abbrev text_of : String → Fields → String
  text_of = text_at c.worker.to_text

  abbrev job_payload : String → String → Fields → Fields
  job_payload name text payload = field "objective" (str text) (
      field "source" (str (String.◌++◌ "connector:" name)) (
        field "session_id" (str (text_of "message_id" payload))
          (field "meta" (obj (field "connector_message" (obj payload) end)) end)))

  abbrev reply_address : Fields → String
  reply_address payload =
      strip (or_else (text_of "to" (dict_at "reply_to" payload)) (text_of "sender" payload))

  -- The end of the inner loop's body, after `enqueue`.
  abbrev register : String → Fields → String → Daemon → Daemon
  register name payload job_id s =
      let address = reply_address payload in
      let token = strip (text_of "token" (dict_at "reply_to" payload)) in
      if is_empty address then s else record s {
        post = record s.post {
          queue = register_reply_target job_id name address token s.post.queue;
        };
      }

  -- The body of the inner loop of `_drain_connectors`.
  drain_message : (now : ℕ) → String → Fields → Daemon → Result (Unit {0}) × Daemon
  drain_message now name payload s =
      let decision = route c.router (incoming_of c.worker.to_text payload) in
      let text = strip (text_of "text" payload) in
      let (r, queue) =
        enqueue now (c.uuid s.made) (job_payload name text payload) "" decision.workspace_id
          decision.profile_name (some (dict_at "reply_to" payload)) "" s.post.queue in
      let s' : Daemon = record s { post = record s.post { queue = queue }; made = s.made + 1 } in
      if is_empty text then (ok tt, s) else elim r [
        | raised e ↦ (raised e, s')
        | ok job_id ↦ (ok tt, register name payload job_id s')
      ]

  abbrev and_then :
      Result (Unit {0}) × Daemon
      → (Daemon → Result (Unit {0}) × Daemon)
      → Result (Unit {0}) × Daemon
  and_then (ok _, s) k = k s
  and_then (raised e, s) k = (raised e, s)

  drain_messages : ℕ → String → List Fields → Daemon → Result (Unit {0}) × Daemon
  unfolding drain_message
  drain_messages now name [] s = (ok tt, s)
  drain_messages now name (m ∷ ms) s =
      and_then (drain_message now name m s) (drain_messages now name ms)

  -- `_drain_connectors`
  unfoldable pub drain_connectors : ℕ → Inbox → Daemon → Result (Unit {0}) × Daemon
  unfolding drain_messages
  drain_connectors now [] s = (ok tt, s)
  drain_connectors now ((name, ms) ∷ inbox) s =
      and_then (drain_messages now name ms s) (drain_connectors now inbox)

  abbrev first_text : List String → Fields → Option String
  first_text [] d = none
  first_text (k ∷ ks) d = elim (get k d) [
    | none ↦ first_text ks d
    | some null ↦ first_text ks d
    | some v ↦
        let text = strip (c.worker.to_text v) in
        if is_empty text then first_text ks d else some text
  ]

  -- `_extract_result_text`
  unfoldable pub extract_result_text : Fields → String
  extract_result_text result =
      get_or (c.dumps result)
        (first_text ("output_text" ∷ "final_text" ∷ "content" ∷ "output" ∷ []) result)

  -- What `run_once` tells the reply targets of a job.
  abbrev pub content_of : WorkerOutcome → String
  content_of o =
      if is_empty o.error
      then extract_result_text o.result
      else String.◌++◌ (String.◌++◌ "Job " o.job_id) (String.◌++◌ " failed: " o.error)

  announce : ℕ → WorkerOutcome → Post → Post
  announce later o p =
      if not o.processed || is_empty o.job_id
      then p
      else (deliver c.resolver later o.job_id (content_of o) p).1

  after_drain : (now later : ℕ) → Result (Unit {0}) × Daemon → Result WorkerOutcome × Daemon
  unfolding announce
  after_drain now later (raised e, s) = (raised e, s)
  after_drain now later (ok _, s) =
      let (o, queue) = process_once c.worker now later s.post.queue in
      (ok o, record s { post = announce later o (record s.post { queue = queue }) })

  -- `run_once`
  unfoldable pub run_once : (now later : ℕ) → Inbox → Daemon → Result WorkerOutcome × Daemon
  unfolding after_drain
  run_once now later inbox s = after_drain now later (drain_connectors now inbox s)

abbrev pub forbidden_llm_keys : List String
forbidden_llm_keys =
    "OPENAI_API_KEY" ∷ "ANTHROPIC_API_KEY" ∷ "GOOGLE_API_KEY" ∷ "MOONSHOT_API_KEY" ∷ []

-- `assert_no_llm_env`, over the environment's variables; the first key that is set is named.
check_keys : (String → Option String) → List String → Result (Unit {0})
check_keys env [] = ok tt
check_keys env (k ∷ ks) =
    if is_empty (get_or "" (env k))
    then check_keys env ks
    else raised (
        runtime_error (
          String.◌++◌ k
            " is present in NovaAgent gateway process. Gateway must not own LLM credentials."))

unfoldable pub assert_no_llm_env : (String → Option String) → Result (Unit {0})
unfolding check_keys
assert_no_llm_env env = check_keys env forbidden_llm_keys
