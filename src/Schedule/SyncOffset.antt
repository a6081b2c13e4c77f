-- ===== src/Schedule/SyncOffset.antt =====
-- src/modules/syncOffset.cpp: the offset that a unit sends.

use sleep_sync_agent.Base.{arith, ℕ, ◌*◌, ◌+◌, ◌-◌, ◌≡◌, ◌≤◌}
use sleep_sync_agent.Params.{Series, normal_sync_period_duration, send_latency}
use sleep_sync_agent.Schedule.{Schedule, delta_now_to_next_sync_point}
use sleep_sync_agent.TimeMath.{TimeLaws, TimeMath}

-- SyncOffset::calculate
unfoldable pub calculate : TimeMath → Series → Schedule → ℕ → ℕ
calculate lib chip s now =
    lib.clamped_subtraction (delta_now_to_next_sync_point lib s now) (send_latency chip)

-- Sent in time, the offset counts from the end of the transmission to the next sync point.
pub calculate-eq :
    (lib : TimeMath) (laws : TimeLaws lib) (chip : Series) (s : Schedule) (now : ℕ)
    → now + send_latency chip ≤ s.end_time_of_sync_period
    → s.end_time_of_sync_period ≤ now + 2 * normal_sync_period_duration
    → calculate lib chip s now + (now + send_latency chip) ≡ s.end_time_of_sync_period
unfolding calculate delta_now_to_next_sync_point
calculate-eq lib laws chip s now h k = ground (
  arith,
  laws.time_exact s.end_time_of_sync_period now (omega arith) (omega arith),
  laws.clamped_exact (s.end_time_of_sync_period - now) (send_latency chip) (omega arith),
)
