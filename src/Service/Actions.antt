-- ===== src/Service/Actions.antt =====
-- How one action is carried out, in `approve_plan` and in `_run_repair_objective` of
-- core/novaadapt_core/service.py.
use nova_adapt.Base.{
  ℕ, zero, suc, ◌+◌, ◌*◌, String, Bool, true, false, Option, none, some, List, if◌then◌else◌,
  str_eq, ltb,
}
use nova_adapt.Base.Lower.{lower}
use nova_adapt.Base.Json.{Value, Fields, str, obj, num, bool, null, field, end, get}
use nova_adapt.Base.Exec.{Exec, ok, Error, runtime_error, ◌>>=◌, ◌>>◌, pure, raise_if}
use nova_adapt.Plans.PlanStore.{Plans}
use nova_adapt.Plans.UndoQueue.{UndoQueue, record_action}
use nova_adapt.Plans.Policy.{PolicyDecision, evaluate}
use nova_adapt.Service.Routing.{Executors, Routed, execute_routed_action}

-- What the service passes on to the memory backend, which never raises here.
pub data MemoryCall : Type 0 where
  persist_plan :
      (plan_id objective status : String) (actions results : List Fields) (error : String)
      → MemoryCall
  finalize :
      (event_names : List String) (session_id : String) (consolidate dream : Bool) → MemoryCall
  ingest_control :
      (control_type : String) (payload : Fields) (event_names : List String) → MemoryCall

-- What is outside of the service: the executors, the clock in the units of the plan store and in those
-- of the undo queue, the operator's request to stop, `time.sleep`, the memory backend, `str` of an
-- exception, and how deep the interpreter recurs.
pub record Outside (W : Type 0) : Type 0 where
  pub ex : Executors W
  pub depth : ℕ
  pub now : W → ℕ
  pub now_seconds : W → ℕ
  pub cancel_requested : W → Bool
  pub sleep : ℕ → W → W
  pub remember : MemoryCall → W → W
  pub error_text : Error → String

-- The databases of the service, and the rest of the world.
pub record Service (W : Type 0) : Type 0 where
  pub plans : Plans
  pub queue : UndoQueue
  pub outer : W

-- `x.get("status")` of what `_execute_routed_action` returns, tested as the retry loop tests it.
abbrev pub is_ok : Routed → Bool
is_ok r = str_eq (lower r.status) "ok"

-- `action.get("undo")`, if it is a dict
abbrev pub undo_of : Fields → Option Fields
undo_of action = elim (get "undo" action) [ some (obj undo) ↦ some undo | _ ↦ none ]

abbrev pub data_value : Option Fields → Value
data_value none = null
data_value (some d) = obj d

abbrev pub blocked_result : PolicyDecision → Fields → Fields
blocked_result decision action = field "status" (str "blocked") (
    field "output" (str decision.reason)
      (field "action" (obj action) (field "dangerous" (bool decision.dangerous) end)))

abbrev pub action_result : PolicyDecision → Routed → ℕ → Fields
action_result decision routed attempts = field "status" (str routed.status) (
    field "output" (str routed.output) (
      field "action" (obj routed.action) (
        field "dangerous" (bool decision.dangerous)
          (field "attempts" (num attempts) (field "data" (data_value routed.«data») end)))))

-- The entry of a repair's action has no number of attempts.
abbrev pub repair_result : PolicyDecision → Routed → Fields
repair_result decision routed = field "status" (str routed.status) (
    field "output" (str routed.output) (
      field "action" (obj routed.action) (
        field "dangerous" (bool decision.dangerous) (field "data" (data_value routed.«data») end))))

abbrev pow2 : ℕ → ℕ
pow2 zero = 1
pow2 (suc n) = 2 * pow2 n

-- What a run over actions is told of its payload.
pub record Options : Type 0 where
  pub allow_dangerous : Bool
  pub retries : ℕ
  pub backoff : ℕ

module _ {W : Type 0} (o : Outside W) where
  -- A call that changes only what is outside.
  abbrev pub outside : {A : Type 0} → Exec W A → Exec (Service W) A
  outside m s = let (r, w) = m s.outer in (r, record s { outer = w })

  abbrev pub execute : Fields → Exec (Service W) Routed
  execute action = outside (execute_routed_action o.ex o.depth true action)

  -- `queue.record(…)`
  unfoldable pub log_action : Fields → String → Option Fields → Exec (Service W) ℕ
  log_action action status undo_action s =
      let (id, q) = record_action (o.now_seconds s.outer) action status undo_action s.queue in
      (ok id, record s { queue = q })

  abbrev pub check_cancel : Exec (Service W) (Unit {0})
  check_cancel s =
      raise_if (o.cancel_requested s.outer) (runtime_error "execution canceled by operator") s

  -- The wait before the attempt that follows `done` attempts; `done` is at least one.
  abbrev pub back_off : ℕ → ℕ → Exec (Service W) (Unit {0})
  back_off backoff zero s = (ok tt, s)
  back_off backoff (suc done) s =
      if ltb 0 backoff
      then (ok tt, record s { outer = o.sleep (backoff * pow2 done) s.outer })
      else (ok tt, s)

  -- The `while` loop of the attempts; `left` attempts remain.
  unfoldable pub retry :
      (left backoff attempts : ℕ) → Fields → Routed → Exec (Service W) (Routed × ℕ)
  retry zero backoff attempts action routed = pure (routed, attempts)
  retry (suc left) backoff attempts action routed = elim (is_ok routed) [
    | true ↦ pure (routed, attempts)
    | false ↦ do
      check_cancel
      back_off backoff attempts
      next ← execute action
      retry left backoff (attempts + 1) action next
  ]

  -- An action that the policy blocks is logged, and not executed.
  abbrev pub block : PolicyDecision → Fields → Exec (Service W) (Fields × ℕ)
  block decision action = do
    id ← log_action action "blocked" (undo_of action)
    pure (blocked_result decision action, id)

  abbrev pub carry_out : Options → PolicyDecision → Fields → Exec (Service W) (Fields × ℕ)
  carry_out opts decision action = do
    first ← execute action
    done ← retry opts.retries opts.backoff 1 action first
    id ← log_action done.0.action done.0.status (undo_of action)
    pure (action_result decision done.0 done.1, id)

  -- One round of the loop of `approve_plan`, before the progress is saved: the entry of
  -- `execution_results`, and the identifier of the log's row.
  unfoldable pub perform : Options → Fields → Exec (Service W) (Fields × ℕ)
  unfolding log_action retry
  perform opts action =
      let decision = evaluate o.ex.to_text action opts.allow_dangerous in
      elim decision.allowed [
        | false ↦ block decision action
        | true ↦ carry_out opts decision action
      ]

  abbrev pub carry_out_once : PolicyDecision → Fields → Exec (Service W) (Fields × ℕ)
  carry_out_once decision action = do
    routed ← execute action
    id ← log_action routed.action routed.status (undo_of action)
    pure (repair_result decision routed, id)

  -- One round of the loop of `_run_repair_objective`, which does not retry.
  unfoldable pub perform_repair : Bool → Fields → Exec (Service W) (Fields × ℕ)
  unfolding log_action
  perform_repair allow_dangerous action =
      let decision = evaluate o.ex.to_text action allow_dangerous in
      elim decision.allowed [
        | false ↦ block decision action
        | true ↦ carry_out_once decision action
      ]
