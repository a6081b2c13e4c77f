-- ===== src/Agent/Receiver/Slot.antt =====
-- src/receiver/receiver.cpp and src/messageHandler/messageDispatcher.cpp: all that a unit hears in
-- one slot. The radio is started again just where the handler's result is to keep listening.
pub mod Listening
pub mod Frame
pub mod Answered
use sleep_sync_agent.Agent.{Agent, Platform}
use sleep_sync_agent.Agent.Behaviour.FishSlotHandler.{handle_in_fish_slot}
use sleep_sync_agent.Agent.Behaviour.SyncSlotHandler.{
  HandlingResult, handle_in_sync_slot, keep_listening,
}
use sleep_sync_agent.Agent.Receiver.{dispatch}
use sleep_sync_agent.Base.{
  Bool, Checked, List, [], false, if◌then◌else◌, ok, true, ℕ, ◌>>=◌, ◌>>◌, ◌∷◌,
}
use sleep_sync_agent.Message.{SyncMessage}
use sleep_sync_agent.Message.Serializer.{
  Buffer, copy_from, master_id_length, master_index, unserialize_offset, unserialize_type,
  work_index, work_length,
}

-- A packet in the radio, and what the serializer's reused message, the radio's time of arrival, the
-- clock and Random hold when it is dispatched.
pub record Arrival : Type 0 where
  pub crc_valid : Bool
  pub buffer : Buffer
  pub message : SyncMessage
  pub toa : ℕ
  pub now : ℕ
  pub random_offset : ℕ

-- What Receiver::startWithHandler is given: the handler of sync slots, or that of fish slots.
abbrev pub Handler : Type 0
Handler = Agent → Arrival → SyncMessage → Checked (Agent × HandlingResult)

abbrev pub sync_slot_handler : Platform → Handler
sync_slot_handler p a x msg = handle_in_sync_slot p a msg x.toa x.now x.random_offset

abbrev pub fish_slot_handler : Platform → Handler
fish_slot_handler p a x msg = handle_in_fish_slot p a msg x.toa

-- onMsgReceived
unfoldable pub on_msg_received : Handler → Agent → Arrival → Checked (Agent × HandlingResult)
on_msg_received handler a x = dispatch (handler a x) a x.crc_valid x.message x.buffer

-- What a packet says.
abbrev pub heard : Arrival → SyncMessage
heard x = record x.message {
  type = unserialize_type x.buffer;
  master_id = copy_from master_id_length master_index x.buffer;
  delta_to_next_sync_point = unserialize_offset x.buffer;
  work = copy_from work_length work_index x.buffer;
}

abbrev pub is_keep_listening : HandlingResult → Bool
is_keep_listening keep_listening = true
is_keep_listening _ = false

-- The packets that arrive from the start of a slot to its end, each as far as the radio still
-- receives. Says whether it still does.
unfoldable pub receive : Handler → Agent → List Arrival → Checked (Agent × Bool)
receive handler a [] = ok (a, true)
receive handler a (x ∷ xs) = do
  r ← on_msg_received handler a x
  if is_keep_listening r.1 then receive handler r.0 xs else ok (r.0, false)
