-- ===== src/Agent/Sender.antt =====
-- src/modules/syncSender.cpp: the messages that a unit makes, in the factory's reused `message`, at
-- the reading `now` of the clock. A message is then serialized into the radio's buffer.

use sleep_sync_agent.Agent.{Agent, Platform}
use sleep_sync_agent.Agent.Merging.{make_merge_msg}
use sleep_sync_agent.Base.{Checked, ℕ}
use sleep_sync_agent.Message.{MessageType, SyncMessage, master_sync, work_sync}
use sleep_sync_agent.Message.MessageFactory.{
  init_abandon_mastership_message, init_info_message, init_sync_message,
}
use sleep_sync_agent.Message.Serializer.{Buffer, serialize}
use sleep_sync_agent.Network.Granularity.{get_raw}
use sleep_sync_agent.Schedule.SyncOffset.{calculate}

abbrev pub get_master_sync_payload : Agent → ℕ
get_master_sync_payload a = get_raw a.power.granularity

-- MessageFactory::initSyncMessage, with the master and the offset that it fetches.
unfoldable pub make_sync :
    Platform → Agent → SyncMessage → MessageType → ℕ → ℕ → Checked SyncMessage
unfolding init_sync_message calculate
make_sync p a message type work_payload now =
    init_sync_message message type work_payload a.clique_master_id
      (calculate p.time p.chip a.schedule now)

unfoldable pub send_master_sync : Platform → Agent → SyncMessage → ℕ → Checked SyncMessage
unfolding make_sync get_raw
send_master_sync p a message now = make_sync p a message master_sync (get_master_sync_payload a) now

unfoldable pub send_merge_sync : Platform → Agent → SyncMessage → ℕ → Checked SyncMessage
unfolding make_merge_msg
send_merge_sync p a message now = make_merge_msg p a message now

unfoldable pub send_work_sync : Platform → Agent → SyncMessage → ℕ → ℕ → Checked SyncMessage
unfolding make_sync
send_work_sync p a message work now = make_sync p a message work_sync work now

-- The assertion in the source names a function without calling it, so that it always holds.
unfoldable pub send_abandon_mastership : Agent → SyncMessage → Checked SyncMessage
unfolding init_abandon_mastership_message
send_abandon_mastership a message = init_abandon_mastership_message message a.clique_master_id

-- What is in the radio's buffer when it transmits.
unfoldable pub send_message : SyncMessage → Buffer → Buffer
send_message msg buffer = serialize msg buffer

unfoldable pub send_info : Agent → SyncMessage → ℕ → Checked SyncMessage
unfolding init_info_message
send_info a message work = init_info_message message a.clique_master_id work

unfoldable pub send_control_sync : Platform → Agent → SyncMessage → ℕ → Checked SyncMessage
unfolding make_sync
send_control_sync p a message now =
    make_sync p a message a.repeater.message_type a.repeater.a_value now
