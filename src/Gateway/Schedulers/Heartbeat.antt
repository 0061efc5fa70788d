-- ===== src/Gateway/Schedulers/Heartbeat.antt =====
-- `HeartbeatScheduler` of core/novaadapt_core/agent_gateway/scheduler/heartbeat.py.
use nova_adapt.Base.{ℕ, ◌+◌, ◌*◌, second, Bool, leb, max}

pub record Heartbeat : Type 0 where
  pub interval_seconds : ℕ
  pub next : ℕ

abbrev pub make_heartbeat : ℕ → ℕ → Heartbeat
make_heartbeat now interval_seconds = record {
  interval_seconds = max 1 interval_seconds;
  next = now;
}

abbrev pub due : ℕ → Heartbeat → Bool
due current h = leb h.next current

abbrev pub mark_beat : ℕ → Heartbeat → Heartbeat
mark_beat current h = record h { next = current + h.interval_seconds * second }
