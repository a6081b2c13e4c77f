-- ===== src/Message.antt =====
-- src/message/message.h, message.cpp and src/modules/deltaSync.cpp: the fields and types of messages.
pub mod MessageFactory
pub mod Serializer
pub mod RoundTrip
use sleep_sync_agent.Base.{
  Bool, Checked, check, false, if◌then◌else◌, leb, ok, sub64, true, ℕ, ◌==◌, ◌>>=◌, ◌>>◌,
}
use sleep_sync_agent.Network.Granularity.{NetGranularity}
use sleep_sync_agent.Params.{guessed_send_latency, normal_sync_period_duration}

pub data MessageType : Type 0 where
  master_sync work_sync control_net_granularity control_scatter_clique : MessageType
  control_work_time control_work_cycle : MessageType
  merge_other merge_my_master_depart merge_my_slave_depart : MessageType
  abandon_mastership info invalid : MessageType

-- The value of the enumerator, as `static_cast<uint8_t>`.
unfoldable pub raw_of_message_type : MessageType → ℕ
raw_of_message_type master_sync = 1
raw_of_message_type work_sync = 2
raw_of_message_type control_net_granularity = 3
raw_of_message_type control_scatter_clique = 4
raw_of_message_type control_work_time = 5
raw_of_message_type control_work_cycle = 6
raw_of_message_type merge_other = 7
raw_of_message_type merge_my_master_depart = 8
raw_of_message_type merge_my_slave_depart = 9
raw_of_message_type abandon_mastership = 10
raw_of_message_type info = 11
raw_of_message_type invalid = 12

unfoldable pub message_type_from_raw : ℕ → MessageType
message_type_from_raw received_type =
    if received_type == 1
    then master_sync
    else if received_type == 2
    then work_sync
    else if received_type == 3
    then control_net_granularity
    else if received_type == 4
    then control_scatter_clique
    else if received_type == 5
    then merge_other
    else if received_type == 6
    then merge_my_master_depart
    else if received_type == 7
    then merge_my_slave_depart
    else if received_type == 8
    then abandon_mastership
    else if received_type == 9
    then info
    else invalid

unfoldable pub does_carry_sync : MessageType → Bool
does_carry_sync master_sync = true
does_carry_sync work_sync = true
does_carry_sync control_net_granularity = true
does_carry_sync control_scatter_clique = true
does_carry_sync _ = false

-- A SystemID is a uint64_t, a Payload an unsigned char. `delta_to_next_sync_point` is the value of
-- the DeltaSync.
pub record SyncMessage : Type 0 where
  pub type : MessageType
  pub delta_to_next_sync_point : ℕ
  pub master_id : ℕ
  pub work : ℕ
  pub transmitted_signal_strength : NetGranularity

-- DeltaSync::isValidValue
abbrev pub is_valid_value : ℕ → Bool
is_valid_value value = leb value normal_sync_period_duration

-- `DeltaSync::set`, on the offset of a message.
abbrev pub set_delta : SyncMessage → ℕ → Checked SyncMessage
set_delta msg value = do
  check (is_valid_value value)
  ok (record msg { delta_to_next_sync_point = value })

-- `toa` is the reading of Radio::timeOfArrival().
unfoldable pub time_of_transmittal : ℕ → ℕ
time_of_transmittal toa = sub64 toa guessed_send_latency
