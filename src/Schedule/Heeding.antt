-- ===== src/Schedule/Heeding.antt =====
-- Which syncs a period can take. Code: src/clique/schedule.cpp.
use native.Mathlib.Omega.{arith}
use sleep_sync_agent.Base.{failed, ok, ℕ, ◌*◌, ◌+◌, ◌<◌, ◌≡◌, ◌≤◌, ◌⊎◌}
use sleep_sync_agent.Params.{normal_sync_period_duration}
use sleep_sync_agent.Schedule.{Schedule, adjust_by_sync_msg}
use sleep_sync_agent.Schedule.Adjusting.{IsScheduled, clock_limit, sync_end}

-- The event of a message is one that the period can be adjusted to: it is within the normal
-- period, or at or after the current end and within two normal periods.
abbrev pub Heeds : Schedule → ℕ → ℕ → Type 0
Heeds s toa delta =
    (s.start_time_of_sync_period ≤ toa + delta)
    × (toa + delta < 2 * clock_limit)
    × ((toa + delta ≤ s.unadjusted_end_time_of_sync_period)
        ⊎ (s.end_time_of_sync_period ≤ toa + delta)
          × (toa + delta ≤ s.start_time_of_sync_period + 2 * normal_sync_period_duration))

-- On a schedule that keeps the invariant, and far from the end of the clock, a sync message is
-- taken just if its event is one that the period can be adjusted to. It then moves nothing but the
-- end, and keeps the invariant; for any other event from the start of the period on, an assertion
-- fails.
pub adjust_by_sync_msg_iff :
    (s : Schedule) (toa delta : ℕ)
    → IsScheduled s
    → s.start_time_of_sync_period < clock_limit
    → s.start_time_of_sync_period ≤ toa + delta
    → toa + delta < 2 * clock_limit
    → let t = record s { end_time_of_sync_period = sync_end s toa delta } in
      (Heeds s toa delta × (adjust_by_sync_msg s toa delta ≡ ok t) × IsScheduled t)
      ⊎ ((¬ Heeds s toa delta) × (adjust_by_sync_msg s toa delta ≡ failed))
unfolding adjust_by_sync_msg
adjust_by_sync_msg_iff s toa delta v near after far = ground arith

pub adjust_by_sync_msg-Heeds :
    (s : Schedule) (toa delta : ℕ)
    → IsScheduled s
    → s.start_time_of_sync_period < clock_limit
    → Heeds s toa delta
    → let t = record s { end_time_of_sync_period = sync_end s toa delta } in
      (adjust_by_sync_msg s toa delta ≡ ok t) × IsScheduled t
unfolding adjust_by_sync_msg
adjust_by_sync_msg-Heeds s toa delta v near h = ground arith
