-- ===== src/Agent/Receiver/Slot/Answered.antt =====
-- A unit hears a whole sync slot without a failed assertion. Code: src/receiver/receiver.cpp,
-- src/messageHandler/messageDispatcher.cpp, syncSlotMsgHandler.cpp, src/clique.

use sleep_sync_agent.Agent.{Agent, Platform, is_fisher}
use sleep_sync_agent.Agent.Behaviour.{filter_sync_msg}
use sleep_sync_agent.Agent.Behaviour.FishSlotHandler.{
  do_fished_sync_msg, handle_catch_from_deep_fishing, handle_in_fish_slot,
}
use sleep_sync_agent.Agent.Behaviour.SyncSlotHandler.{
  HandlingResult, handle_granularity_aspect, handle_in_sync_slot, handle_sync_aspect,
  handle_work_aspect, keep_listening,
}
use sleep_sync_agent.Agent.Control.{
  cancel_any_upstreaming_in_progress, do_downstream_clique_size_change,
  handle_net_granularity_message, handle_work_cycle_message, handle_work_time_message,
}
use sleep_sync_agent.Agent.Mastership.{assume_mastership}
use sleep_sync_agent.Agent.Modes.{hear_work}
use sleep_sync_agent.Agent.Receiver.{dispatch, handle_unserialized}
use sleep_sync_agent.Agent.Receiver.Answered.{
  IsTimely, handle_in_fish_slot-HandledReady, handle_in_sync_slot-HandledReady,
}
use sleep_sync_agent.Agent.Receiver.Slot.{
  Arrival, fish_slot_handler, heard, on_msg_received, receive, sync_slot_handler,
}
use sleep_sync_agent.Agent.Receiver.Slot.Listening.{AllArrivals, Heard, receive-Succeeds}
use sleep_sync_agent.Agent.Receiver.Total.{HandledReady, IsReady}
use sleep_sync_agent.Base.{
  Bool, Checked, List, Succeeds, arith, false, not, ok, refl, subst, sym, true, ℕ, ◌&&◌, ◌∙◌, ◌≡◌,
  ◌≤◌, ◌⊎◌,
}
use sleep_sync_agent.Fishing.Manager.{is_deep_fishing}
use sleep_sync_agent.Message.{MessageType, SyncMessage, control_scatter_clique, does_carry_sync}
use sleep_sync_agent.Message.Serializer.{
  is_invalid, unserialize, unserialize_fields, unserialize_offset, unserialize_type,
}
use sleep_sync_agent.Params.{normal_sync_period_duration}
use sleep_sync_agent.Schedule.{Schedule}
use sleep_sync_agent.Schedule.Heeding.{Heeds}

abbrev is_scatter : MessageType → Bool
is_scatter control_scatter_clique = true
is_scatter _ = false

-- A packet is garbled, or its offset is a DeltaSync, it is not an order to scatter, and where it
-- carries sync its event is one that the period can be adjusted to.
abbrev pub IsHearable : Schedule → Arrival → Type 0
IsHearable s x =
    let t = unserialize_type x.buffer in
    let delta = unserialize_offset x.buffer in
    ((x.crc_valid && not (is_invalid t) ≡ false)
      ⊎ (delta ≤ normal_sync_period_duration)
        × (is_scatter t ≡ false)
        × ((does_carry_sync t ≡ false) ⊎ Heeds s x.toa delta))
    × (x.random_offset ≤ normal_sync_period_duration)

abbrev pub AreHearable : Schedule → List Arrival → Type 0
AreHearable s = AllArrivals (IsHearable s)

abbrev OnSchedule : Platform → Schedule → Agent → Type 0
OnSchedule p s a = IsReady p a × (a.schedule ≡ s)

-- A message that is not an order to scatter moves the schedule only where it ends the listening.
handle_in_sync_slot-schedule :
    (p : Platform) (a b : Agent) (msg : SyncMessage) (toa now random_offset : ℕ)
    → is_scatter msg.type ≡ false
    → handle_in_sync_slot p a msg toa now random_offset ≡ ok (b, keep_listening)
    → b.schedule ≡ a.schedule
unfolding handle_in_sync_slot handle_sync_aspect filter_sync_msg handle_granularity_aspect
    handle_work_aspect hear_work handle_net_granularity_message do_downstream_clique_size_change
    cancel_any_upstreaming_in_progress handle_work_time_message handle_work_cycle_message
    assume_mastership
handle_in_sync_slot-schedule p a b msg toa now random_offset h e = ground arith

handled-Heard :
    (p : Platform) (s : Schedule) (a : Agent) (msg : SyncMessage) (toa now random_offset : ℕ)
    → OnSchedule p s a
    → is_scatter msg.type ≡ false
    → IsTimely a msg toa
    → random_offset ≤ normal_sync_period_duration
    → (r : Checked (Agent × HandlingResult)) → handle_in_sync_slot p a msg toa now random_offset ≡ r
    → Heard (OnSchedule p s) (IsReady p) r
handled-Heard p s a msg toa now random_offset v n h k (ok (b, keep_listening)) e = (
  subst (HandledReady p) e (handle_in_sync_slot-HandledReady p a msg toa now random_offset v.0 h k),
  handle_in_sync_slot-schedule p a b msg toa now random_offset n e ∙ v.1,
)
handled-Heard p s a msg toa now random_offset v n h k r e =
    ground (arith, handle_in_sync_slot-HandledReady p a msg toa now random_offset v.0 h k)

on_msg_received-Heard :
    (p : Platform) (s : Schedule) (a : Agent) (x : Arrival)
    → OnSchedule p s a
    → IsHearable s x
    → Heard (OnSchedule p s) (IsReady p) (on_msg_received (sync_slot_handler p) a x)
unfolding on_msg_received dispatch handle_unserialized unserialize unserialize_fields
    unserialize_type unserialize_offset
on_msg_received-Heard p s a x v h = ground (
  arith,
  λ (n : is_scatter (heard x).type ≡ false) (t : IsTimely a (heard x) x.toa).
      handled-Heard p s a (heard x) x.toa x.now x.random_offset v n t h.1
        (handle_in_sync_slot p a (heard x) x.toa x.now x.random_offset) refl,
)

-- A ready unit hears any packets in a sync slot, valid or garbled, without a failed assertion and
-- is ready afterwards, where for each valid one the offset is a DeltaSync, it is not an order to
-- scatter, an event that it announces is one that the period at the start of the slot can be
-- adjusted to, and Random keeps to its range.
pub receive-IsReady :
    (p : Platform) (a : Agent) (xs : List Arrival)
    → IsReady p a
    → AreHearable a.schedule xs
    → Succeeds (λ r. IsReady p r.0) (receive (sync_slot_handler p) a xs)
receive-IsReady p a xs v h =
    receive-Succeeds (sync_slot_handler p) (OnSchedule p a.schedule) (IsReady p)
      (IsHearable a.schedule) (on_msg_received-Heard p a.schedule) (λ b w. w.0) a xs (v, refl) h

-- What a fisher can take: any packet that is garbled, or whose offset is a DeltaSync and whose
-- event, where it carries sync, is one that the period can be adjusted to.
abbrev pub IsCatchable : Schedule → Arrival → Type 0
IsCatchable s x =
    let t = unserialize_type x.buffer in
    let delta = unserialize_offset x.buffer in
    (x.crc_valid && not (is_invalid t) ≡ false)
    ⊎ (delta ≤ normal_sync_period_duration) × ((does_carry_sync t ≡ false) ⊎ Heeds s x.toa delta)

-- In a fish slot a unit is as it was until it has heard a sync.
pub handled_fished-Heard :
    (p : Platform) (a : Agent) (msg : SyncMessage) (toa : ℕ)
    → IsReady p a
    → (is_fisher a.role ≡ true) ⊎ (is_deep_fishing a.fishing.mode ≡ true)
    → IsTimely a msg toa
    → Heard (λ b. b ≡ a) (IsReady p) (handle_in_fish_slot p a msg toa)
unfolding handle_in_fish_slot do_fished_sync_msg handle_catch_from_deep_fishing
handled_fished-Heard p a msg toa v r h =
    ground (arith, handle_in_fish_slot-HandledReady p a msg toa v r h)

fished-Heard :
    (p : Platform) (a : Agent) (x : Arrival)
    → IsReady p a
    → (is_fisher a.role ≡ true) ⊎ (is_deep_fishing a.fishing.mode ≡ true)
    → IsCatchable a.schedule x
    → Heard (λ b. b ≡ a) (IsReady p) (on_msg_received (fish_slot_handler p) a x)
unfolding on_msg_received dispatch handle_unserialized unserialize unserialize_fields
    unserialize_type unserialize_offset
fished-Heard p a x v r h =
    ground
      (arith, λ (t : IsTimely a (heard x) x.toa). handled_fished-Heard p a (heard x) x.toa v r t)

-- A ready unit that fishes, as a fisher or deep, hears any packets in a fish slot, valid or
-- garbled, without a failed assertion and is ready afterwards, where for each valid one the offset
-- is a DeltaSync and an event that it announces is one that the period can be adjusted to.
pub receive_fish-IsReady :
    (p : Platform) (a : Agent) (xs : List Arrival)
    → IsReady p a
    → (is_fisher a.role ≡ true) ⊎ (is_deep_fishing a.fishing.mode ≡ true)
    → AllArrivals (IsCatchable a.schedule) xs
    → Succeeds (λ r. IsReady p r.0) (receive (fish_slot_handler p) a xs)
receive_fish-IsReady p a xs v r h =
    receive-Succeeds (fish_slot_handler p) (λ b. b ≡ a) (IsReady p) (IsCatchable a.schedule)
      (λ b x e g.
        subst (λ c. Heard (λ d. d ≡ a) (IsReady p) (on_msg_received (fish_slot_handler p) c x))
          (sym e) (fished-Heard p a x v r g))
      (λ b e. subst (IsReady p) (sym e) v) a xs refl h
