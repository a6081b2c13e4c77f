-- ===== src/Agent/Receiver/Slot/Frame.antt =====
-- What a sync slot leaves alone when no control message is heard in it. Code:
-- src/messageHandler/syncSlotMsgHandler.cpp, messageDispatcher.cpp, src/modules/syncBehaviour.cpp.

use sleep_sync_agent.Agent.{Agent, Platform}
use sleep_sync_agent.Agent.Behaviour.{
  filter_sync_msg, handle_superior_or_same_sync_msg, handle_superior_or_same_sync_while_merging,
}
use sleep_sync_agent.Agent.Behaviour.SyncSlotHandler.{
  HandlingResult, handle_granularity_aspect, handle_in_sync_slot, handle_sync_aspect,
  handle_work_aspect, keep_listening, stop_listening_heard_master_sync,
  stop_listening_heard_merge_sync, stop_listening_heard_work_sync,
}
use sleep_sync_agent.Agent.Control.{handle_work_cycle_message, handle_work_time_message}
use sleep_sync_agent.Agent.Mastership.{
  assume_mastership, heard_sync, update_by_sync_message, update_mastership,
}
use sleep_sync_agent.Agent.Merging.{
  deactivate, restart_merge_policy, stop_merger, to_fisher_from_merger,
}
use sleep_sync_agent.Agent.Modes.{hear_work}
use sleep_sync_agent.Agent.Receiver.{dispatch, handle_unserialized}
use sleep_sync_agent.Agent.Receiver.Slot.{
  Arrival, heard, is_keep_listening, on_msg_received, receive, sync_slot_handler,
}
use sleep_sync_agent.Agent.Roles.{to_fisher}
use sleep_sync_agent.Base.{
  Bool, Checked, List, [], arith, failed, false, if◌then◌else◌, ok, refl, true, ℕ, ◌>>=◌, ◌∙◌, ◌∷◌,
  ◌≡◌, ◌≤◌,
}
use sleep_sync_agent.Clique.DropoutMonitor.{reset_dropout}
use sleep_sync_agent.Message.{
  MessageType, SyncMessage, control_net_granularity, control_scatter_clique,
}
use sleep_sync_agent.Message.Serializer.{unserialize, unserialize_fields, unserialize_type}
use sleep_sync_agent.Schedule.{adjust_by_sync_msg}

-- The orders to the members of a clique.
abbrev is_order : MessageType → Bool
is_order control_scatter_clique = true
is_order control_net_granularity = true
is_order _ = false

abbrev pub AreNoOrders : List Arrival → Type 0
AreNoOrders [] = Unit {0}
AreNoOrders (x ∷ xs) = (is_order (unserialize_type x.buffer) ≡ false) × AreNoOrders xs

-- The mode, the tasks, the prelude and the repeater are kept, and the period's start; no sync is
-- counted as lost.
pub record IsFramed (a b : Agent) : Type 0 where
  pub mode : b.mode ≡ a.mode
  pub scheduled : b.scheduled ≡ a.scheduled
  pub prelude : b.is_prelude_started ≡ a.is_prelude_started
  pub repeater : b.repeater ≡ a.repeater
  pub start : b.schedule.start_time_of_sync_period ≡ a.schedule.start_time_of_sync_period
  pub counted : b.count_sync_slots_without_sync_msg ≤ a.count_sync_slots_without_sync_msg

abbrev FramedIfOk : {A : Type 0} → Agent → Checked (Agent × A) → Type 0
FramedIfOk a (ok (b, x)) = IsFramed a b
FramedIfOk a failed = Unit {0}

filter_sync_msg-FramedIfOk :
    (p : Platform) (a : Agent) (msg : SyncMessage) (toa : ℕ)
    → FramedIfOk a (filter_sync_msg p a msg toa)
unfolding filter_sync_msg handle_superior_or_same_sync_msg
    handle_superior_or_same_sync_while_merging stop_merger restart_merge_policy
    to_fisher_from_merger deactivate to_fisher heard_sync reset_dropout update_by_sync_message
    update_mastership adjust_by_sync_msg
filter_sync_msg-FramedIfOk p a msg toa = ground arith

handle_sync_aspect-FramedIfOk :
    (p : Platform) (a : Agent) (msg : SyncMessage) (toa : ℕ)
    → FramedIfOk a (handle_sync_aspect p a msg toa)
unfolding handle_sync_aspect
handle_sync_aspect-FramedIfOk p a msg toa = ground (arith, filter_sync_msg-FramedIfOk p a msg toa)

handle_in_sync_slot-FramedIfOk :
    (p : Platform) (a : Agent) (msg : SyncMessage) (toa now random_offset : ℕ)
    → is_order msg.type ≡ false
    → FramedIfOk a (handle_in_sync_slot p a msg toa now random_offset)
unfolding handle_in_sync_slot handle_granularity_aspect handle_work_aspect hear_work
    handle_work_time_message handle_work_cycle_message assume_mastership
handle_in_sync_slot-FramedIfOk p a msg toa now random_offset h = ground (
  arith,
  handle_sync_aspect-FramedIfOk p (handle_granularity_aspect a msg) msg toa,
  handle_sync_aspect-FramedIfOk p (handle_work_aspect a msg) msg toa,
)

on_msg_received-FramedIfOk :
    (p : Platform) (a : Agent) (x : Arrival)
    → is_order (unserialize_type x.buffer) ≡ false
    → FramedIfOk a (on_msg_received (sync_slot_handler p) a x)
unfolding on_msg_received dispatch handle_unserialized unserialize unserialize_fields
    unserialize_type
on_msg_received-FramedIfOk p a x h =
    ground (arith, handle_in_sync_slot-FramedIfOk p a (heard x) x.toa x.now x.random_offset h)

IsFramed-trans : (a b c : Agent) → IsFramed a b → IsFramed b c → IsFramed a c
IsFramed-trans a b c v w = record {
  mode = w.mode ∙ v.mode;
  scheduled = w.scheduled ∙ v.scheduled;
  prelude = w.prelude ∙ v.prelude;
  repeater = w.repeater ∙ v.repeater;
  start = w.start ∙ v.start;
  counted = omega (arith, v.counted, w.counted);
}

FramedIfOk-trans :
    (a b : Agent) (r : Checked (Agent × Bool)) → IsFramed a b → FramedIfOk b r → FramedIfOk a r
FramedIfOk-trans a b (ok (c, x)) v w = IsFramed-trans a b c v w
FramedIfOk-trans a b failed v w = tt

go_on-FramedIfOk :
    (p : Platform) (a : Agent) (r : Checked (Agent × HandlingResult)) (xs : List Arrival)
    → FramedIfOk a r
    → ((b : Agent) → FramedIfOk b (receive (sync_slot_handler p) b xs))
    → FramedIfOk a (
        r >>= λ h.
        if is_keep_listening h.1 then receive (sync_slot_handler p) h.0 xs else ok (h.0, false))
go_on-FramedIfOk p a (ok (b, keep_listening)) xs v f =
    FramedIfOk-trans a b (receive (sync_slot_handler p) b xs) v (f b)
go_on-FramedIfOk p a (ok (b, stop_listening_heard_master_sync)) xs v f = v
go_on-FramedIfOk p a (ok (b, stop_listening_heard_work_sync)) xs v f = v
go_on-FramedIfOk p a (ok (b, stop_listening_heard_merge_sync)) xs v f = v
go_on-FramedIfOk p a failed xs v f = tt

-- Hearing a sync slot in which there is no order keeps all that.
pub receive-FramedIfOk :
    (p : Platform) (a : Agent) (xs : List Arrival)
    → AreNoOrders xs
    → FramedIfOk a (receive (sync_slot_handler p) a xs)
unfolding receive
receive-FramedIfOk p a [] h = record {
  mode = refl;
  scheduled = refl;
  prelude = refl;
  repeater = refl;
  start = refl;
  counted = omega arith;
}
receive-FramedIfOk p a (x ∷ xs) h =
    go_on-FramedIfOk p a (on_msg_received (sync_slot_handler p) a x) xs
      (on_msg_received-FramedIfOk p a x h.0) (λ b. receive-FramedIfOk p b xs h.1)
