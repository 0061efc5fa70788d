-- ===== src/Lib.antt =====
-- NovaAdapt, the parts of its Python code that keep state and decide: a model of them, and what has
-- been proved about the model.
--
-- The parts and how they interact. The gateway daemon (core/novaadapt_core/agent_gateway/) drains
-- messages from connectors, routes each to a workspace and a profile, and puts a job into a queue; a
-- worker runs the jobs with retries, and what comes out is delivered to the reply targets. The HTTP
-- server runs requests that change something under idempotency keys, and long ones as background jobs
-- (core/novaadapt_core/jobs.py). Plans of actions wait for an operator (plan_store.py); the policy
-- (policy.py) says which actions are let through, and the undo queue logs what was done
-- (shared/novaadapt_shared/undo_queue.py). Workflows (core/novaadapt_core/workflows/) are lists of steps
-- that are finished one by one. The model router (shared/novaadapt_shared/model_router.py) asks the
-- language models. The service (core/novaadapt_core/service.py) ties these together: it stores a plan,
-- lets an operator approve it, sends each of its actions past the policy to the executor of its domain,
-- logs what was done, repairs what failed, and undoes it on request. The governance of the runtime
-- (runtime_governance.py) counts what the models cost and limits the runs; the audit store
-- (audit_store.py) logs what happened, and watchers are sent what is new in it.
--
-- The files.
--   Base: what the parts share. Base/Table is a SQLite table with a primary key and the statements that
--     the stores issue, Base/Order is ORDER BY, Base/Json are JSON values, Base/Exec are methods that
--     change a state and may raise, Base/Text, Base/Lower, Base/Find and Base/Decimal are what is used
--     of `str`, and Base/Time is what is used of the clock.
--   Workflows: Store, Checkpoints and Engine are `WorkflowStore`, `WorkflowCheckpointStore` and
--     `WorkflowEngine`; one function for each method, under the method's name.
--   Gateway: Queue is `GatewayJobQueue`, Worker is `GatewayWorker`, Delivery is `DeliveryManager`,
--     Router is `GatewayRouter`, Daemon is `NovaAgentDaemon` with `assert_no_llm_env`, and
--     Schedulers/Cron, Heartbeat and Webhooks are the schedulers.
--   Requests: Idempotency is `IdempotencyStore`, Execute is server_idempotency_utils.py, JobStore is
--     `JobStore`, Jobs is `JobManager`, whose methods are cut where they release the lock.
--   Plans: PlanStore is `PlanStore`, UndoQueue is `UndoQueue`, Policy is `ActionPolicy`.
--   Models: Router is `ModelRouter`, for the strategy `single`, Router/Vote for the strategy `vote`, and
--     Router/Decompose with Router/Decompose/Chat for the strategy `decompose`.
--   Service: parts of `NovaAdaptService`. Routing is `_execute_routed_action` and what it calls, Domains
--     the inference of the domains of a repair, Create is `create_plan`, Admit are the checks that open
--     `approve_plan`, Actions is its loop over the actions with their retries, Repair is
--     `_attempt_execution_self_heal`, Approve puts them together and holds `reject_plan`, Undo is `undo`,
--     `undo_plan` and `history`.
--   Runtime: Governance is `RuntimeGovernance`, AuditStore is `AuditStore` with `events_wait` of the
--     service.
--   Server: Streams are the streams of server-sent events of core/novaadapt_core/server_stream_utils.py,
--     Limiter is the rate limiter of server.py with `_is_rate_limited` and `_check_auth` of
--     server_handler.py, and Cleanup is `prune_local_state` of cleanup.py.
-- The modules below a part hold proofs, named for what they prove; each Tests module runs the theorems
-- at concrete inputs.
--
-- How the code is read. The state of a store is the list of rows of each of its tables, in the order of
-- insertion. A clock reading and an identifier that `uuid4` makes up are arguments. Times are natural
-- numbers of microseconds (of seconds in the undo queue), so that text comparison of ISO times is
-- comparison of numbers; NULL and the empty time are `none`. JSON that is written is read back as the
-- same value. `str.strip` is modelled on all characters that Python strips, `str.lower` on A to Z.
-- Parameters stand for what is outside: the runner of a job, the connectors, the operation of a route,
-- the call of a model endpoint, the executors, the memory backend, the preview run of a plan, the order
-- in which futures complete, the hash of a payload, and Python's `str` of a JSON value. In the
-- governance a cost is a number of millionths of a dollar.
-- Most loops recur on a list or on the number of attempts that are left. Fuel is taken by `run_batches`
-- of Models/Router/Decompose: one round more than there are subtasks, as each round ends at least one of
-- them. `execute_routed_action` takes the depth to which the interpreter lets it call itself, and `show`
-- of Base/Decimal one step for each digit at most.
--
-- What is not modelled: HTTP, sockets, devices and processes, the schema statements and the connections
-- of SQLite with their timeouts and retries, floating-point costs elsewhere, and the parts that only pass
-- calls on. A method of a store, and a method of the service like `approve_plan`, is one step: neither two
-- processes on one database file are modelled, nor two threads of the HTTP server on one plan, of which one
-- rejects or approves the plan while the other runs it. Only the methods of `JobManager` are cut.
pub mod Base
pub mod Workflows
pub mod Gateway
pub mod Requests
pub mod Plans
pub mod Models
pub mod Service
pub mod Runtime
pub mod Server
