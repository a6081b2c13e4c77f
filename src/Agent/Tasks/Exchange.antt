-- ===== src/Agent/Tasks/Exchange.antt =====
-- A sync period of two units, in which one sends its sync and the other one listens. Code:
-- src/task/task.cpp, src/slots/sync/syncSlot.cpp, src/modules/syncSender.cpp,
-- src/receiver/receiver.cpp, src/messageHandler.
pub mod Keeping
pub mod Calling
pub mod Called
pub mod Answering
pub mod Answered
pub mod Listened
pub mod Joined
pub mod Meeting
pub mod Round
pub mod InStep
pub mod Rounds
use sleep_sync_agent.Agent.{Agent, Platform}
use sleep_sync_agent.Agent.Receiver.Slot.{Arrival}
use sleep_sync_agent.Agent.Tasks.SyncPeriod.{Meetings, sync_period}
use sleep_sync_agent.Base.{Checked, [], failed, ok, ◌>>=◌, ◌>>◌, ◌∷◌}
use sleep_sync_agent.Message.{SyncMessage}
use sleep_sync_agent.Message.Serializer.{serialize}

-- What the last task put into the radio is what arrives.
unfoldable pub last_sent : Agent → Checked SyncMessage
last_sent a = elim a.sent [ [] ↦ failed | m ∷ rest_sent ↦ ok m ]

-- The packet over what was in the buffer; it may be garbled on its way.
abbrev pub carried : SyncMessage → Arrival → Arrival
carried m x = record x { buffer = serialize m x.buffer }

-- One period of the sender, and of the receiver, to which that packet comes.
unfoldable pub exchange :
    Platform → Platform → Agent × Agent → Meetings → Meetings → Arrival → Checked (Agent × Agent)
unfolding last_sent
exchange p q (a, b) e f x = do
  c ← sync_period p a e
  m ← last_sent c
  d ← sync_period q b (record f { arrivals = carried m x ∷ [] })
  ok (c, d)

-- One period of both, in which the master does not send and nothing comes.
unfoldable pub quiet_exchange :
    Platform → Platform → Agent × Agent → Meetings → Meetings → Checked (Agent × Agent)
quiet_exchange p q (a, b) e f = do
  c ← sync_period p a (record e { arrivals = [] })
  d ← sync_period q b (record f { arrivals = [] })
  ok (c, d)
