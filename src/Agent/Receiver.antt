-- ===== src/Agent/Receiver.antt =====
-- src/messageHandler/messageDispatcher.cpp and src/receiver/receiver.cpp: a packet that arrived, to
-- the handler of its slot. RANGE_FILTERING is not defined.
pub mod Joining
pub mod Steps
pub mod Invariant
pub mod Total
pub mod Slot
pub mod Answered
use sleep_sync_agent.Agent.{Agent}
use sleep_sync_agent.Agent.Behaviour.SyncSlotHandler.{HandlingResult, keep_listening}
use sleep_sync_agent.Base.{Bool, Checked, Option, if◌then◌else◌, none, ok, some, ◌>>=◌, ◌>>◌}
use sleep_sync_agent.Message.{SyncMessage}
use sleep_sync_agent.Message.Serializer.{Buffer, unserialize}

-- `handler` is the handler of the slot.
unfoldable pub handle_unserialized :
    (SyncMessage → Checked (Agent × HandlingResult))
    → Agent
    → Option SyncMessage
    → Checked (Agent × HandlingResult)
handle_unserialized handler a none = ok (a, keep_listening)
handle_unserialized handler a (some msg) = handler msg

-- MessageDispatcher::dispatch. `crc_valid` is Ensemble::isPacketCRCValid(), `message` the instance
-- that the serializer reuses.
unfoldable pub dispatch :
    (SyncMessage → Checked (Agent × HandlingResult))
    → Agent
    → Bool
    → SyncMessage
    → Buffer
    → Checked (Agent × HandlingResult)
unfolding handle_unserialized
dispatch handler a crc_valid message buffer =
    if crc_valid
    then (do msg ← unserialize message buffer; handle_unserialized handler a msg)
    else ok (a, keep_listening)
