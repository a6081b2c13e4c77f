-- ===== src/Params.antt =====
-- The compile-time parameters: src/scheduleParameters.h, src/physicalParameters.h,
-- src/policy/policyParameters.h, src/fishPolicy/fishingParameters.h.

use sleep_sync_agent.Base.{ℕ, ◌*◌, ◌+◌, ◌-◌, ◌/◌}

-- The chip that the library is built for.
pub data Series : Type 0 where
  nrf51 nrf52 : Series

abbrev pub send_latency : Series → ℕ
send_latency nrf52 = 4
send_latency nrf51 = 10

abbrev pub guessed_send_latency : ℕ
guessed_send_latency = 10

abbrev pub msg_over_the_air_time_in_ticks : ℕ
msg_over_the_air_time_in_ticks = 2

abbrev pub ticks_per_second : ℕ
ticks_per_second = 32768

abbrev pub virtual_slot_duration : ℕ
virtual_slot_duration = 50

abbrev pub duty_cycle_inverse : ℕ
duty_cycle_inverse = 800

abbrev pub half_slot_duration : ℕ
half_slot_duration = virtual_slot_duration / 2

abbrev pub three_slot_duration : ℕ
three_slot_duration = virtual_slot_duration * 3

-- The source multiplies by 3 here too.
abbrev pub two_slot_duration : ℕ
two_slot_duration = virtual_slot_duration * 3

abbrev pub first_sleeping_slot_ordinal : ℕ
first_sleeping_slot_ordinal = 2

abbrev pub count_active_slots : ℕ
count_active_slots = 2

abbrev pub count_slots : ℕ
count_slots = count_active_slots * duty_cycle_inverse

abbrev pub hfxo_startup : ℕ
hfxo_startup = virtual_slot_duration

abbrev pub preflight_delta : Series → ℕ
preflight_delta chip = hfxo_startup + send_latency chip

abbrev pub send_duration : Series → ℕ
send_duration chip = msg_over_the_air_time_in_ticks + send_latency chip

abbrev pub normal_sync_period_duration : ℕ
normal_sync_period_duration = count_slots * virtual_slot_duration

abbrev pub delta_sync_point_to_sync_slot_middle : Series → ℕ
delta_sync_point_to_sync_slot_middle chip = half_slot_duration + hfxo_startup - send_latency chip

abbrev pub delta_sync_slot_start_to_sync_slot_xmit : Series → ℕ
delta_sync_slot_start_to_sync_slot_xmit chip = half_slot_duration - send_latency chip

abbrev pub timeout_waiting_for_sync_power_sleeper : ℕ
timeout_waiting_for_sync_power_sleeper = 160000

-- class Policy
abbrev pub count_repeats_per_control_sync : ℕ
count_repeats_per_control_sync = 4

abbrev pub count_syncs_per_merger : ℕ
count_syncs_per_merger = 6

abbrev pub max_missing_syncs_per_dropout : ℕ
max_missing_syncs_per_dropout = 80

abbrev pub count_sync_periods_to_choose_master_sync_xmits : ℕ
count_sync_periods_to_choose_master_sync_xmits = 3

-- class FishingParameters
abbrev pub min_slots_trolling_fished_per_period : ℕ
min_slots_trolling_fished_per_period = 1

abbrev pub last_slot_ordinal_should_fish : ℕ
last_slot_ordinal_should_fish = count_slots

abbrev pub first_slot_ordinal_to_fish : ℕ
first_slot_ordinal_to_fish = first_sleeping_slot_ordinal

abbrev pub deep_fish_session_duration_ticks : ℕ
deep_fish_session_duration_ticks = virtual_slot_duration

abbrev pub min_trolling_fish_session_duration_ticks : ℕ
min_trolling_fish_session_duration_ticks =
    min_slots_trolling_fished_per_period * virtual_slot_duration

abbrev pub max_trolling_real_fish_session_duration_slots : ℕ
max_trolling_real_fish_session_duration_slots = 100

abbrev pub count_fishings_per_deep_fishing : ℕ
count_fishings_per_deep_fishing = 6

abbrev pub duration_til_two_slots_from_end_sync_period : ℕ
duration_til_two_slots_from_end_sync_period =
    normal_sync_period_duration - 2 * virtual_slot_duration

abbrev pub max_sane_timeout : ℕ
max_sane_timeout = 164000

abbrev pub codes_sleep_overhead : ℕ
codes_sleep_overhead = 5

abbrev pub oversleep_margin : ℕ
oversleep_margin = codes_sleep_overhead
