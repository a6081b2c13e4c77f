-- ===== src/Examples.antt =====
-- Units, schedules and messages at which the properties are applied: the modules below hold one
-- example of each property.
pub mod Parts
pub mod Units
pub mod Messages
pub mod Periods
pub mod Loop
pub mod Tasks
pub mod Pair
pub mod Lives
pub mod Formerly
use sleep_sync_agent.Agent.{Agent, Platform, fisher, initial_agent, no_fishing, sync_and_fish_merge}
use sleep_sync_agent.Base.{Checked, arith, failed, ok, true}
use sleep_sync_agent.Clique.CliqueHistory.{add, init_history, initial_history}
use sleep_sync_agent.Message.{MessageType, SyncMessage, master_sync}
use sleep_sync_agent.Message.Serializer.{Buffer}
use sleep_sync_agent.Network.Granularity.{NetGranularity}
use sleep_sync_agent.Params.{nrf52}
use sleep_sync_agent.Schedule.{Schedule}
use sleep_sync_agent.Schedule.Adjusting.{IsScheduled}
use sleep_sync_agent.TimeMath.{reference_time}

-- A period of the normal length, from tick 100000 on.
abbrev pub fresh_schedule : Schedule
fresh_schedule = record {
  start_time_of_sync_period = 100000;
  unadjusted_end_time_of_sync_period = 180000;
  end_time_of_sync_period = 180000;
}

pub fresh_schedule-IsScheduled : IsScheduled fresh_schedule
fresh_schedule-IsScheduled = record {
  normal = ground arith;
  not_shortened = ground arith;
  not_too_long = ground arith;
}

abbrev pub seven : Platform
seven = record { system_id = 7; chip = nrf52; softdevice_present = true; time = reference_time }

-- Unit 7 after its initialization, in that period, as master of its own clique.
abbrev pub master_seven : Agent
master_seven = record initial_agent {
  schedule = fresh_schedule;
  clique_master_id = 7;
  role = no_fishing;
  history = init_history initial_history 7;
}

-- The same unit as a slave of unit 3, which it has joined from its own clique.
abbrev pub slave_seven : Agent
slave_seven = record master_seven { clique_master_id = 3; history = add master_seven.history 3 1 }

-- The master with the power to fish.
abbrev pub fishing_seven : Agent
fishing_seven = record master_seven { mode = sync_and_fish_merge; role = fisher }

abbrev pub empty_message : SyncMessage
empty_message = record {
  type = MessageType.invalid;
  delta_to_next_sync_point = 0;
  master_id = 0;
  work = 0;
  transmitted_signal_strength = NetGranularity.small;
}

-- A sync of the better master 3, half a period before its sync point.
abbrev pub sync_of_three : SyncMessage
sync_of_three = record empty_message {
  type = master_sync;
  delta_to_next_sync_point = 40000;
  master_id = 3;
  work = 2;
}

-- What a call gave, or the other unit where an assertion failed.
abbrev pub ok_or : Checked Agent → Agent → Agent
ok_or (ok a) b = a
ok_or failed b = b

abbrev pub blank : Buffer
blank = λ i. 0
