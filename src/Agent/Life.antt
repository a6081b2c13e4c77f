-- ===== src/Agent/Life.antt =====
-- Everything that a unit does, in any order: its tasks, the packets that it hears, and what its
-- provisionings ask of it. Code: src/task, src/receiver/receiver.cpp, src/messageHandler,
-- src/network/topologyProvisioner.cpp, src/provisioning/workProvisioner.cpp.

pub mod Sound
use sleep_sync_agent.Agent.{Agent, Platform, Task}
use sleep_sync_agent.Agent.Behaviour.SyncSlotHandler.{HandlingResult}
use sleep_sync_agent.Agent.Control.{
  do_downstream_clique_size_change, do_downstream_scatter, do_upstream_clique_size_change,
  do_upstream_scatter, do_upstream_work_cycle, do_upstream_work_time,
  handle_net_granularity_provisioning, handle_scatter_provisioning, provision_work_cycle,
  provision_work_time,
}
use sleep_sync_agent.Agent.Receiver.{dispatch, handle_unserialized}
use sleep_sync_agent.Agent.Receiver.Slot.{
  Arrival, fish_slot_handler, heard, on_msg_received, sync_slot_handler,
}
use sleep_sync_agent.Agent.SyncSlot.{Answers}
use sleep_sync_agent.Agent.Tasks.{run}
use sleep_sync_agent.Agent.Tasks.Sent.Running.{run-FitsIfOk}
use sleep_sync_agent.Agent.Wire.{AnsweredFitsIfOk, FitsIfOk, FitsIfOk-bind, FitsWire}
use sleep_sync_agent.Agent.Wire.Handled.{
  handle_in_fish_slot-AnsweredFitsIfOk, handle_in_sync_slot-AnsweredFitsIfOk,
}
use sleep_sync_agent.Base.{
  Checked, List, [], arith, if◌then◌else◌, ok, suc, u8, zero, ℕ, ◌%◌, ◌+◌, ◌/◌, ◌<◌, ◌==◌, ◌>>=◌,
  ◌>>◌, ◌^◌, ◌∷◌,
}
use sleep_sync_agent.Message.{SyncMessage, raw_of_message_type}
use sleep_sync_agent.Message.Serializer.{
  Buffer, copy_from, copy_to, serialize, serialize_master_id, serialize_offset, serialize_type,
  serialize_work, unserialize, unserialize_fields, unserialize_offset, unserialize_type,
}
use sleep_sync_agent.Network.Granularity.{get_raw}
use sleep_sync_agent.Network.SendRepeater.{start}

pub data Event : Type 0 where
  runs : Task → Answers → Event
  hears_in_sync_slot hears_in_fish_slot : Arrival → Event
  provisions_granularity provisions_work_cycle : ℕ → Event
  provisions_work_time : (ℕ → ℕ) → ℕ → Event
  provisions_scatter : Event

-- The unit, without the result for the receiver.
abbrev pub agent_of : Agent × HandlingResult → Checked Agent
agent_of (a, result) = ok a

unfoldable pub happens : Platform → Agent → Event → Checked Agent
happens p a (runs task v) = run p a v task
happens p a (hears_in_sync_slot x) = on_msg_received (sync_slot_handler p) a x >>= agent_of
happens p a (hears_in_fish_slot x) = on_msg_received (fish_slot_handler p) a x >>= agent_of
happens p a (provisions_granularity value) = ok (handle_net_granularity_provisioning p a value)
happens p a (provisions_work_cycle value) = ok (provision_work_cycle p a value)
happens p a (provisions_work_time convert value) = ok (provision_work_time p convert a value)
happens p a provisions_scatter = ok (handle_scatter_provisioning p a)

unfoldable pub life : Platform → Agent → List Event → Checked Agent
life p a [] = ok a
life p a (x ∷ xs) = do b ← happens p a x; life p b xs

-- What the app's mailbox and the radio's buffer hold are bytes.
abbrev pub IsBytes : Event → Type 0
IsBytes (runs task v) = v.mail < 256
IsBytes (hears_in_sync_slot x) = (i : ℕ) → x.buffer i < 256
IsBytes (hears_in_fish_slot x) = (i : ℕ) → x.buffer i < 256
IsBytes _ = Unit {0}

abbrev pub AreBytes : List Event → Type 0
AreBytes [] = Unit {0}
AreBytes (x ∷ xs) = IsBytes x × AreBytes xs

copy_from_bytes :
    (k index : ℕ) (buffer : Buffer)
    → ((i : ℕ) → buffer i < 256)
    → copy_from k index buffer < 256 ^ k
unfolding copy_from
copy_from_bytes zero index buffer h = ground arith
copy_from_bytes (suc k) index buffer h =
    ground (arith, h index, copy_from_bytes k (index + 1) buffer h)

copy_to_bytes :
    (k index value : ℕ) (buffer : Buffer)
    → ((i : ℕ) → buffer i < 256)
    → (i : ℕ) → copy_to k index value buffer i < 256
unfolding copy_to
copy_to_bytes zero index value buffer h i = h i
copy_to_bytes (suc k) index value buffer h i =
    copy_to_bytes k (index + 1) (value / 256) (λ j. if j == index then value % 256 else buffer j)
      (λ j. ground (arith, h j)) i

-- What is serialized over bytes is bytes.
pub serialize_bytes :
    (msg : SyncMessage) (buffer : Buffer)
    → ((i : ℕ) → buffer i < 256)
    → (i : ℕ) → serialize msg buffer i < 256
unfolding serialize serialize_type serialize_master_id serialize_offset serialize_work
serialize_bytes msg buffer h =
    let type = serialize_type msg buffer in
    let master = serialize_master_id msg type in
    let offset = serialize_offset msg master in
    copy_to_bytes 1 10 msg.work offset (
      copy_to_bytes 3 7 msg.delta_to_next_sync_point master (
        copy_to_bytes 6 1 msg.master_id type
          (copy_to_bytes 1 0 (u8 (raw_of_message_type msg.type)) buffer h)))

on_msg_received-AnsweredFitsIfOk :
    (p : Platform) (a : Agent) (x : Arrival)
    → FitsWire a
    → p.system_id < 2 ^ 48
    → ((i : ℕ) → x.buffer i < 256)
    → AnsweredFitsIfOk (on_msg_received (sync_slot_handler p) a x)
      × AnsweredFitsIfOk (on_msg_received (fish_slot_handler p) a x)
unfolding on_msg_received dispatch handle_unserialized unserialize unserialize_fields
    unserialize_type unserialize_offset
on_msg_received-AnsweredFitsIfOk p a x v k h = ground (
  arith,
  handle_in_sync_slot-AnsweredFitsIfOk p a (heard x) x.toa x.now x.random_offset v k
      (copy_from_bytes 6 1 x.buffer h),
  handle_in_fish_slot-AnsweredFitsIfOk p a (heard x) x.toa v (copy_from_bytes 6 1 x.buffer h),
)

happens-FitsIfOk :
    (p : Platform) (a : Agent) (x : Event)
    → FitsWire a
    → p.system_id < 2 ^ 48
    → IsBytes x
    → FitsIfOk (happens p a x)
unfolding happens handle_net_granularity_provisioning do_downstream_clique_size_change
    do_upstream_clique_size_change start get_raw provision_work_cycle do_upstream_work_cycle
    provision_work_time do_upstream_work_time handle_scatter_provisioning do_downstream_scatter
    do_upstream_scatter
happens-FitsIfOk p a (runs task v) w k h = run-FitsIfOk p a v task w k h
happens-FitsIfOk p a (hears_in_sync_slot x) w k h =
    ground (arith, (on_msg_received-AnsweredFitsIfOk p a x w k h).0)
happens-FitsIfOk p a (hears_in_fish_slot x) w k h =
    ground (arith, (on_msg_received-AnsweredFitsIfOk p a x w k h).1)
happens-FitsIfOk p a (provisions_granularity value) w k h = ground arith
happens-FitsIfOk p a (provisions_work_cycle value) w k h = ground arith
happens-FitsIfOk p a (provisions_work_time convert value) w k h = ground arith
happens-FitsIfOk p a provisions_scatter w k h = ground arith

-- Every message that a unit ever sends fits the bytes of the packet, whatever tasks run, packets
-- arrive and provisionings come, in any order: the master ID its six, the work its one, and the
-- offset is a DeltaSync. This is so from any state that keeps to it, such as the one after power on,
-- up to an assertion that fails, where the unit's own ID fits in six bytes and the mailbox and the
-- radio's buffer hold bytes.
pub life-FitsIfOk :
    (p : Platform) (a : Agent) (xs : List Event)
    → FitsWire a
    → p.system_id < 2 ^ 48
    → AreBytes xs
    → FitsIfOk (life p a xs)
unfolding life
life-FitsIfOk p a [] v k h = v
life-FitsIfOk p a (x ∷ xs) v k h =
    FitsIfOk-bind (happens p a x) (λ b. life p b xs) (happens-FitsIfOk p a x v k h.0)
      (λ b w. life-FitsIfOk p b xs w k h.1)
