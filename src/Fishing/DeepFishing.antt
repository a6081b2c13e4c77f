-- ===== src/Fishing/DeepFishing.antt =====
-- src/fishPolicy/deepFishingPolicy.cpp: fishing for one clique, at the offset that a merge message
-- gave. The callbacks of src/slots/fishing/deepFishing.cpp are named here and run by the agent.
pub mod Termination
use sleep_sync_agent.Base.{
  Bool, Checked, Option, failed, if◌then◌else◌, ltb, none, ok, some, u32, u64, ℕ, ◌+◌,
}
use sleep_sync_agent.Params.{
  count_fishings_per_deep_fishing, deep_fish_session_duration_ticks,
  duration_til_two_slots_from_end_sync_period, three_slot_duration,
}
use sleep_sync_agent.Schedule.{Schedule}

pub data DoneCallback : Type 0 where
  end_with_no_action end_with_recover_master : DoneCallback

-- The null pointer is `none`.
pub record DeepFishing : Type 0 where
  pub count_fishings : ℕ
  pub delta_sync_point_to_sync_point_of_fishee : ℕ
  pub done_callback : Option DoneCallback

abbrev pub initial_deep_fishing : DeepFishing
initial_deep_fishing = record {
  count_fishings = 0;
  delta_sync_point_to_sync_point_of_fishee = 0;
  done_callback = none;
}

unfoldable pub restart : DeepFishing → ℕ → DoneCallback → DeepFishing
restart d a_delta a_callback = record {
  count_fishings = 0;
  delta_sync_point_to_sync_point_of_fishee = a_delta;
  done_callback = some a_callback;
}

unfoldable pub get_start_time_to_fish : DeepFishing → Schedule → DeepFishing × ℕ
get_start_time_to_fish d s = (
  record d { count_fishings = u32 (d.count_fishings + 1) },
  u64 (s.start_time_of_sync_period + d.delta_sync_point_to_sync_point_of_fishee),
)

abbrev pub get_fish_session_duration_ticks : ℕ
get_fish_session_duration_ticks = deep_fish_session_duration_ticks

-- The call of the pointer, which is asserted not to be null.
call : Option DoneCallback → Checked (Option DoneCallback)
call none = failed
call (some f) = ok (some f)

-- The result is the callback that was called, if fishing is done.
pub check_done : DeepFishing → Checked (Option DoneCallback)
unfolding call
check_done d =
    if ltb count_fishings_per_deep_fishing d.count_fishings then call d.done_callback else ok none

pub delta_sync_point_to_end_deep_fishing : DeepFishing → ℕ
delta_sync_point_to_end_deep_fishing d =
    u32 (d.delta_sync_point_to_sync_point_of_fishee + get_fish_session_duration_ticks)

unfoldable pub is_fish_slot_start_sync_period : DeepFishing → Bool
is_fish_slot_start_sync_period d =
    ltb d.delta_sync_point_to_sync_point_of_fishee three_slot_duration

unfoldable pub is_fish_slot_end_sync_period : DeepFishing → Bool
unfolding delta_sync_point_to_end_deep_fishing
is_fish_slot_end_sync_period d =
    ltb (delta_sync_point_to_end_deep_fishing d) duration_til_two_slots_from_end_sync_period

abbrev pub current_session_start_slot_ordinal : ℕ
current_session_start_slot_ordinal = 0
