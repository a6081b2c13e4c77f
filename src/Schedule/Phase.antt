-- ===== src/Schedule/Phase.antt =====
-- What the schedule of a unit that hears a sync has in common with the sender's. Code:
-- src/modules/syncOffset.cpp, src/clique/schedule.cpp.

use sleep_sync_agent.Base.{arith, ok, ℕ, ◌+◌, ◌<◌, ◌≡◌, ◌≤◌, ◌⊎◌}
use sleep_sync_agent.Params.{Series, normal_sync_period_duration, send_latency}
use sleep_sync_agent.Schedule.{Schedule, adjust_by_sync_msg}
use sleep_sync_agent.Schedule.Adjusting.{IsScheduled, adjust_by_sync_msg_lem, clock_limit, sync_end}
use sleep_sync_agent.Schedule.SyncOffset.{calculate, calculate-eq}
use sleep_sync_agent.TimeMath.{TimeLaws, TimeMath}

-- The crux of the protocol, over two clocks that differ by `ahead_b` and `ahead_a`. Unit `a`
-- computes its offset at `now_a`, at most one normal period before its next sync point and at least
-- the send latency; unit `b` hears the message one send latency later, at `toa_b`, in a period that
-- was not extended. Then `b` fails no assertion, and at the moment its adjusted period ends `a` is
-- at that sync point or exactly one normal period after it.
pub sync-aligns :
    (lib : TimeMath) (laws : TimeLaws lib) (chip : Series) (a b : Schedule)
    (now_a toa_b ahead_a ahead_b : ℕ)
    → IsScheduled b
    → b.end_time_of_sync_period ≡ b.unadjusted_end_time_of_sync_period
    → b.start_time_of_sync_period ≤ toa_b
    → toa_b ≤ b.end_time_of_sync_period
    → toa_b < clock_limit
    → now_a + send_latency chip ≤ a.end_time_of_sync_period
    → a.end_time_of_sync_period ≤ now_a + normal_sync_period_duration
    → now_a + send_latency chip + ahead_b ≡ toa_b + ahead_a
    → (t : Schedule) × (adjust_by_sync_msg b toa_b (calculate lib chip a now_a) ≡ ok t)
      × IsScheduled t
      × ((t.end_time_of_sync_period + ahead_a ≡ a.end_time_of_sync_period + ahead_b)
          ⊎ (t.end_time_of_sync_period + ahead_a
              ≡ a.end_time_of_sync_period + ahead_b + normal_sync_period_duration))
sync-aligns lib laws chip a b now_a toa_b ahead_a ahead_b v fresh early late near h k same =
    let delta = calculate lib chip a now_a in
    let exact = calculate-eq lib laws chip a now_a h (omega arith) in
    let heard =
      adjust_by_sync_msg_lem b toa_b delta v fresh early late (omega (arith, exact)) near in
    (
      record b { end_time_of_sync_period = sync_end b toa_b delta },
      heard.0,
      heard.1,
      ground (arith, exact),
    )
