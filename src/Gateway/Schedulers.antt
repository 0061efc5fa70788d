-- ===== src/Gateway/Schedulers.antt =====
-- The schedulers of core/novaadapt_core/agent_gateway/scheduler/. A time is a number of seconds. An
-- interval that is given is a natural number: the code refuses or raises to 1 what is below 1.
pub mod Cron
pub mod Heartbeat
pub mod Webhooks
