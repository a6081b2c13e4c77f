-- ===== src/Agent.antt =====
-- The whole state of a unit: the file-level variables of src/clique, src/syncAgentImp,
-- src/cliqueMerger, src/slots, src/network, src/schedule and src/work, and what it has asked of its
-- timer, radio and app.
pub mod Mastership
pub mod Reversion
pub mod Merging
pub mod Roles
pub mod Modes
pub mod Control
pub mod Behaviour
pub mod Sender
pub mod Receiver
pub mod SyncSchedule
pub mod SyncSlot
pub mod Tasks
pub mod Provisioning
pub mod Wire
pub mod Life
use sleep_sync_agent.Base.{Bool, List, [], false, true, ℕ}
use sleep_sync_agent.Clique.CliqueHistory.{CliqueHistory, initial_history}
use sleep_sync_agent.Clique.XmitPolicy.{XmitPolicy, initial_policy}
use sleep_sync_agent.Fishing.FishSchedule.{FishTimes, initial_fish_times}
use sleep_sync_agent.Fishing.Manager.{Fishing, initial_fishing}
use sleep_sync_agent.Message.{MessageType, SyncMessage}
use sleep_sync_agent.Network.Granularity.{NetGranularity, Power, large, plus0}
use sleep_sync_agent.Network.SendRepeater.{SendRepeater, initial_repeater}
use sleep_sync_agent.Params.{Series}
use sleep_sync_agent.Schedule.{Schedule}
use sleep_sync_agent.TimeMath.{TimeMath}

-- What is fixed for a unit: System::ID(), the chip, whether SOFTDEVICE_PRESENT is defined, and the
-- library of clock arithmetic.
pub record Platform : Type 0 where
  pub system_id : ℕ
  pub chip : Series
  pub softdevice_present : Bool
  pub time : TimeMath

pub data Role : Type 0 where
  merger fisher no_fishing : Role

pub data SyncMode : Type 0 where
  maintain sync_only sync_and_fish_merge sync_and_provision : SyncMode

-- src/cliqueMerger/cliqueMerger.cpp
pub record CliqueMerger : Type 0 where
  pub is_merging : Bool
  pub period_time_to_merge_slot_start : ℕ
  pub superior_master_id : ℕ
  pub inferior_master_id : ℕ
  pub kind_of_merger : MessageType

-- The tasks that are given to TaskTimer::schedule.
pub data Task : Type 0 where
  power_reserve_check start_sync_period_maintain : Task
  prelude_w_sync prelude_w_fish : Task
  start_sync_slot_after_prelude start_sync_slot_without_scheduled_prelude : Task
  send_sync_task end_sync_slot_listen end_sync_slot_send : Task
  fish_slot_start fish_slot_end merger_start_and_end : Task
  provision_start provision_end : Task

pub data SyncSlotKind : Type 0 where
  send_sync send_control_sync send_work_sync listen : SyncSlotKind

pub record Agent : Type 0 where
  pub schedule : Schedule
  pub clique_master_id : ℕ
  pub history : CliqueHistory
  pub count_sync_slots_without_sync_msg : ℕ
  pub policy : XmitPolicy
  pub fishing : Fishing
  pub fish_times : FishTimes
  pub role : Role
  pub mode : SyncMode
  pub clique_merger : CliqueMerger
  pub count_sent_merge_syncs : ℕ
  pub power : Power
  pub repeater : SendRepeater
  pub remembered_granularity : NetGranularity
  pub is_prelude_started : Bool
  pub provision_counter : ℕ
  pub heard_work : Bool
  pub count_merge_sync_heard : ℕ
  pub sync_slot_kind : SyncSlotKind
  pub scheduled : List (Task × ℕ)  -- newest first, with the time to wait
  pub relayed : List ℕ  -- work relayed to the app, newest first
  pub work_times : List ℕ  -- calls of the app's work time control, newest first
  pub work_cycles : List ℕ  -- calls of the app's work cycle control, newest first
  pub sent : List SyncMessage  -- newest first

abbrev pub initial_agent : Agent
initial_agent = record {
  schedule = record {
    start_time_of_sync_period = 0;
    unadjusted_end_time_of_sync_period = 0;
    end_time_of_sync_period = 0;
  };
  clique_master_id = 0;
  history = initial_history;
  count_sync_slots_without_sync_msg = 0;
  policy = initial_policy;
  fishing = initial_fishing;
  fish_times = initial_fish_times;
  role = merger;
  mode = maintain;
  clique_merger = record {
    is_merging = false;
    period_time_to_merge_slot_start = 0;
    superior_master_id = 0;
    inferior_master_id = 0;
    kind_of_merger = MessageType.invalid;
  };
  count_sent_merge_syncs = 0;
  power = record { granularity = large; xmit_power = plus0 };
  repeater = initial_repeater;
  remembered_granularity = NetGranularity.small;
  is_prelude_started = false;
  provision_counter = 0;
  heard_work = false;
  count_merge_sync_heard = 0;
  sync_slot_kind = send_sync;
  scheduled = [];
  relayed = [];
  work_times = [];
  work_cycles = [];
  sent = [];
}

abbrev pub is_merger : Role → Bool
is_merger merger = true
is_merger _ = false

abbrev pub is_fisher : Role → Bool
is_fisher fisher = true
is_fisher _ = false
