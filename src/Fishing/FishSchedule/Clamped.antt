-- ===== src/Fishing/FishSchedule/Clamped.antt =====
-- Where a fish session lies in its sync period. Code: src/slots/fishing/fishSchedule.cpp,
-- src/slots/fishing/fishingManager.cpp, src/clique/schedule.cpp.

use sleep_sync_agent.Fishing.Trolling
use sleep_sync_agent.Fishing.DeepFishing
use sleep_sync_agent.Agent.{Agent, fish_slot_end}
use sleep_sync_agent.Agent.SyncSchedule.{schedule_fish_slot_end}
use sleep_sync_agent.Base.{arith, ◌+◌, ◌<◌, ◌^◌, ◌∷◌, ◌≡◌, ◌≤◌, ◌⊎◌}
use sleep_sync_agent.Fishing.DeepFishing.{DeepFishing}
use sleep_sync_agent.Fishing.FishSchedule.{set_start_and_end_times}
use sleep_sync_agent.Fishing.Manager.{get_fish_session_duration_ticks, get_start_time_to_fish}
use sleep_sync_agent.Fishing.Trolling.{Trolling}
use sleep_sync_agent.Fishing.Trolling.InRange.{IsTrolling}
use sleep_sync_agent.Schedule.{clamp_time_before_latest_slot_mark}
use sleep_sync_agent.Schedule.Adjusting.{IsScheduled, clock_limit}

-- The times that are kept of the session of either mode, and what is scheduled, for a unit with its
-- counters in range and a well-formed schedule, far from the end of the clock: the start lies within
-- the period, and the kept end is a session's duration after it, or the next sync point where that
-- comes first. The end of the slot is scheduled by the duration alone, so that a session whose kept
-- end is cut short passes the sync point.
pub set_start_and_end_times_lem :
    (a : Agent)
    → IsTrolling a.fishing.troll
    → IsScheduled a.schedule
    → a.schedule.start_time_of_sync_period < clock_limit
    → a.fishing.deep.delta_sync_point_to_sync_point_of_fishee < 2 ^ 32
    → let (m, t) = set_start_and_end_times a.fishing a.schedule a.fish_times in
      let b = schedule_fish_slot_end (record a { fishing = m; fish_times = t }) in
      let duration = get_fish_session_duration_ticks a.fishing in
      let sync_point = a.schedule.end_time_of_sync_period in
      (a.schedule.start_time_of_sync_period ≤ t.start_time_of_fish_slot)
      × (t.start_time_of_fish_slot ≤ sync_point)
      × ((t.end_time_of_fish_slot ≡ t.start_time_of_fish_slot + duration)
            × (t.start_time_of_fish_slot + duration ≤ sync_point)
          ⊎ (t.end_time_of_fish_slot ≡ sync_point)
            × (sync_point < t.start_time_of_fish_slot + duration))
      × (b.scheduled ≡ (fish_slot_end, duration) ∷ a.scheduled)
unfolding set_start_and_end_times clamp_time_before_latest_slot_mark get_start_time_to_fish
    get_fish_session_duration_ticks Trolling.get_start_time_to_fish
    DeepFishing.get_start_time_to_fish Trolling.get_fish_session_duration_ticks
    schedule_fish_slot_end
set_start_and_end_times_lem a v w near short = ground arith
