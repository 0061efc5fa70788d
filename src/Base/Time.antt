-- ===== src/Base/Time.antt =====
-- Times are numbers of microseconds.
use Prim.Native.Nat.{ℕ, ◌/◌}

abbrev pub second : ℕ
second = 1000000

-- SQLite's `datetime(t)`, which drops the fraction of the second.
abbrev pub whole_seconds : ℕ → ℕ
whole_seconds t = t / second
