-- ===== src/Gateway.antt =====
-- core/novaadapt_core/agent_gateway: the durable job queue, the worker that runs its jobs, the
-- delivery of results to reply targets, the router of incoming messages and the daemon's loop.
pub mod Queue
pub mod Worker
pub mod Delivery
pub mod Router
pub mod Daemon
pub mod Schedulers
mod Tests
