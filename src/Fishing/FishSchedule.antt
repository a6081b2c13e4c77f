-- ===== src/Fishing/FishSchedule.antt =====
-- src/slots/fishing/fishSchedule.cpp: the times of the next fish session, calculated once.
pub mod Clamped
use sleep_sync_agent.Base.{u64, ℕ, ◌+◌}
use sleep_sync_agent.Fishing.Manager.{
  Fishing, get_fish_session_duration_ticks, get_start_time_to_fish,
}
use sleep_sync_agent.Schedule.{Schedule, clamp_time_before_latest_slot_mark}
use sleep_sync_agent.TimeMath.{TimeMath}

pub record FishTimes : Type 0 where
  pub start_time_of_fish_slot : ℕ
  pub end_time_of_fish_slot : ℕ

abbrev pub initial_fish_times : FishTimes
initial_fish_times = record { start_time_of_fish_slot = 0; end_time_of_fish_slot = 0 }

-- The mode's policy counts the call, so the fishing state is a result too.
pub memo_time_of_fish_session_start : Fishing → Schedule → FishTimes → Fishing × FishTimes
memo_time_of_fish_session_start m s times =
    let (m', scheduled_start_time) = get_start_time_to_fish m s in
    let clamped_result = clamp_time_before_latest_slot_mark s scheduled_start_time in
    (m', record times { start_time_of_fish_slot = clamped_result })

pub time_of_fish_session_end : Fishing → Schedule → FishTimes → ℕ
time_of_fish_session_end m s times =
    let scheduled_end_time =
      u64 (times.start_time_of_fish_slot + get_fish_session_duration_ticks m) in
    clamp_time_before_latest_slot_mark s scheduled_end_time

pub memo_time_of_fish_session_end : Fishing → Schedule → FishTimes → FishTimes
unfolding time_of_fish_session_end
memo_time_of_fish_session_end m s times = record times {
  end_time_of_fish_slot = time_of_fish_session_end m s times;
}

unfoldable pub set_start_and_end_times : Fishing → Schedule → FishTimes → Fishing × FishTimes
unfolding memo_time_of_fish_session_start memo_time_of_fish_session_end
set_start_and_end_times m s times =
    let (m', started) = memo_time_of_fish_session_start m s times in
    (m', memo_time_of_fish_session_end m' s started)

unfoldable pub delta_to_fish_session_start : TimeMath → FishTimes → ℕ → ℕ
delta_to_fish_session_start lib times now =
    lib.clamped_time_difference times.start_time_of_fish_slot now

unfoldable pub delta_to_fish_session_end : TimeMath → FishTimes → ℕ → ℕ
delta_to_fish_session_end lib times now =
    lib.clamped_time_difference times.end_time_of_fish_slot now
