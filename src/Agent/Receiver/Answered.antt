-- ===== src/Agent/Receiver/Answered.antt =====
-- A unit that is ready handles any message without a failed assertion, and is ready afterwards.
-- Code: src/messageHandler/syncSlotMsgHandler.cpp, fishSlotMsgHandler.cpp,
-- deepFishingMessageHandler.cpp.

use sleep_sync_agent.Agent.{Agent, Platform, is_fisher}
use sleep_sync_agent.Agent.Behaviour.FishSlotHandler.{
  do_fished_sync_msg, handle_catch_from_deep_fishing, handle_in_fish_slot,
}
use sleep_sync_agent.Agent.Behaviour.SyncSlotHandler.{
  get_fishing_delta_from_merge_msg, handle_granularity_aspect, handle_in_sync_slot,
  handle_sync_aspect, handle_work_aspect,
}
use sleep_sync_agent.Agent.Control.{
  cancel_any_upstreaming_in_progress, do_downstream_clique_size_change,
  handle_net_granularity_message, handle_work_cycle_message, handle_work_time_message,
}
use sleep_sync_agent.Agent.Mastership.{assume_mastership}
use sleep_sync_agent.Agent.Modes.{hear_work}
use sleep_sync_agent.Agent.Receiver.Steps.{
  handle_granularity_aspect-IsSound, refished-IsSound, switch_to_deep_fishing-troll,
}
use sleep_sync_agent.Agent.Receiver.Total.{
  HandledReady, IsReady, filter_sync_msg-FilteredReady, handle_scatter_message-Ready,
  to_merger_from_fisher-Ready, update_by_sync_message-Ready,
}
use sleep_sync_agent.Base.{ap, arith, false, refl, true, u8, ℕ, ◌+◌, ◌≡◌, ◌≤◌, ◌⊎◌}
use sleep_sync_agent.Fishing.DeepFishing.{DoneCallback, end_with_no_action, end_with_recover_master}
use sleep_sync_agent.Fishing.Manager.{is_deep_fishing, switch_to_deep_fishing, switch_to_trolling}
use sleep_sync_agent.Message.{
  MessageType, SyncMessage, abandon_mastership, control_net_granularity, control_scatter_clique,
  control_work_cycle, control_work_time, does_carry_sync, info, master_sync, merge_my_master_depart,
  merge_my_slave_depart, merge_other, work_sync,
}
use sleep_sync_agent.Params.{normal_sync_period_duration}
use sleep_sync_agent.Schedule.Heeding.{Heeds}

-- A message that carries sync announces an event that the period can be adjusted to.
abbrev pub IsTimely : Agent → SyncMessage → ℕ → Type 0
IsTimely a msg toa =
    (does_carry_sync msg.type ≡ false) ⊎ Heeds a.schedule toa msg.delta_to_next_sync_point

handle_sync_aspect-HandledReady :
    (p : Platform) (a : Agent) (msg : SyncMessage) (toa : ℕ)
    → IsReady p a
    → does_carry_sync msg.type ≡ true
    → Heeds a.schedule toa msg.delta_to_next_sync_point
    → HandledReady p (handle_sync_aspect p a msg toa)
unfolding handle_sync_aspect
handle_sync_aspect-HandledReady p a msg toa v c h =
    ground (arith, filter_sync_msg-FilteredReady p a msg toa v c h)

-- The same, after a change that leaves the schedule alone.
changed-HandledReady :
    (p : Platform) (a b : Agent) (msg : SyncMessage) (toa : ℕ)
    → IsReady p b × (b.schedule ≡ a.schedule)
    → does_carry_sync msg.type ≡ true
    → IsTimely a msg toa
    → HandledReady p (handle_sync_aspect p b msg toa)
changed-HandledReady p a b msg toa v c h =
    ground (arith, handle_sync_aspect-HandledReady p b msg toa v.0 c)

handle_granularity_aspect-IsReady :
    (p : Platform) (a : Agent) (msg : SyncMessage)
    → IsReady p a
    → IsReady p (handle_granularity_aspect a msg)
      × ((handle_granularity_aspect a msg).schedule ≡ a.schedule)
unfolding handle_granularity_aspect
handle_granularity_aspect-IsReady p a msg v =
    ground (arith, handle_granularity_aspect-IsSound p a msg v.sound)

handle_work_aspect-IsReady :
    (p : Platform) (a : Agent) (msg : SyncMessage)
    → IsReady p a
    → IsReady p (handle_work_aspect a msg) × ((handle_work_aspect a msg).schedule ≡ a.schedule)
unfolding handle_work_aspect hear_work
handle_work_aspect-IsReady p a msg v = ground arith

handle_control_messages-IsReady :
    (p : Platform) (a : Agent) (msg : SyncMessage)
    → IsReady p a
    → IsReady p (handle_net_granularity_message p a msg)
      × IsReady p (handle_work_time_message p a msg)
      × IsReady p (handle_work_cycle_message p a msg)
      × IsReady p (assume_mastership p a)
unfolding handle_net_granularity_message do_downstream_clique_size_change
    cancel_any_upstreaming_in_progress handle_work_time_message handle_work_cycle_message
    assume_mastership
handle_control_messages-IsReady p a msg v = ground arith

refished-IsReady :
    (p : Platform) (a : Agent) (delta : ℕ) (callback : DoneCallback) (count : ℕ)
    → IsReady p a
    → IsReady p (record a {
      fishing = switch_to_deep_fishing a.fishing delta callback;
      count_merge_sync_heard = count;
    })
refished-IsReady p a delta callback count v = ground (
  arith,
  switch_to_deep_fishing-troll a.fishing delta callback,
  refished-IsSound p a (switch_to_deep_fishing a.fishing delta callback) count v.sound,
)

handle_by_type :
    (p : Platform) (a : Agent) (msg : SyncMessage) (toa now random_offset : ℕ) (t : MessageType)
    → msg.type ≡ t
    → IsReady p a
    → IsTimely a msg toa
    → random_offset ≤ normal_sync_period_duration
    → HandledReady p (handle_in_sync_slot p a msg toa now random_offset)
unfolding handle_in_sync_slot does_carry_sync
handle_by_type p a msg toa now random_offset master_sync e v h k = ground (
  arith,
  changed-HandledReady p a (handle_granularity_aspect a msg) msg toa
      (handle_granularity_aspect-IsReady p a msg v) (ap does_carry_sync e) h,
)
handle_by_type p a msg toa now random_offset work_sync e v h k = ground (
  arith,
  changed-HandledReady p a (handle_work_aspect a msg) msg toa (handle_work_aspect-IsReady p a msg v)
      (ap does_carry_sync e) h,
)
handle_by_type p a msg toa now random_offset control_net_granularity e v h k =
    ground (arith, handle_control_messages-IsReady p a msg v)
handle_by_type p a msg toa now random_offset control_scatter_clique e v h k =
    ground (arith, handle_scatter_message-Ready p a msg random_offset v k)
handle_by_type p a msg toa now random_offset control_work_time e v h k =
    ground (arith, handle_control_messages-IsReady p a msg v)
handle_by_type p a msg toa now random_offset control_work_cycle e v h k =
    ground (arith, handle_control_messages-IsReady p a msg v)
handle_by_type p a msg toa now random_offset abandon_mastership e v h k =
    ground (arith, handle_control_messages-IsReady p a msg v)
handle_by_type p a msg toa now random_offset merge_my_master_depart e v h k = ground (
  arith,
  refished-IsReady p a (get_fishing_delta_from_merge_msg p a msg toa now) end_with_recover_master
      (u8 (a.count_merge_sync_heard + 1)) v,
)
handle_by_type p a msg toa now random_offset merge_other e v h k = ground (
  arith,
  refished-IsReady p a (get_fishing_delta_from_merge_msg p a msg toa now) end_with_no_action
      (u8 (a.count_merge_sync_heard + 1)) v,
)
handle_by_type p a msg toa now random_offset merge_my_slave_depart e v h k = ground (
  arith,
  refished-IsReady p a (get_fishing_delta_from_merge_msg p a msg toa now) end_with_no_action
      (u8 (a.count_merge_sync_heard + 1)) v,
)
handle_by_type p a msg toa now random_offset info e v h k = ground arith
handle_by_type p a msg toa now random_offset MessageType.invalid e v h k = ground arith

-- A ready unit handles any message in a sync slot without a failed assertion and is ready
-- afterwards, where a message that carries sync announces an event that the period can be adjusted
-- to and Random keeps to its range.
pub handle_in_sync_slot-HandledReady :
    (p : Platform) (a : Agent) (msg : SyncMessage) (toa now random_offset : ℕ)
    → IsReady p a
    → IsTimely a msg toa
    → random_offset ≤ normal_sync_period_duration
    → HandledReady p (handle_in_sync_slot p a msg toa now random_offset)
handle_in_sync_slot-HandledReady p a msg toa now random_offset v h k =
    handle_by_type p a msg toa now random_offset msg.type refl v h k

do_fished_sync_msg-HandledReady :
    (p : Platform) (a : Agent) (msg : SyncMessage) (toa : ℕ)
    → IsReady p a
    → (is_fisher a.role ≡ true) ⊎ (is_deep_fishing a.fishing.mode ≡ true)
    → does_carry_sync msg.type ≡ true
    → Heeds a.schedule toa msg.delta_to_next_sync_point
    → HandledReady p (do_fished_sync_msg p a msg toa)
unfolding do_fished_sync_msg handle_catch_from_deep_fishing switch_to_trolling
do_fished_sync_msg-HandledReady p a msg toa v r c h = ground (
  arith,
  v.never_worse,
  λ (f : is_fisher a.role ≡ true) (d : is_deep_fishing a.fishing.mode ≡ false).
      to_merger_from_fisher-Ready p a msg toa v f d c h,
  λ (k : msg.master_id ≤ p.system_id). update_by_sync_message-Ready p a msg toa v c k h,
)

-- A ready unit that fishes, as a fisher or deep, handles any message in a fish slot without a
-- failed assertion and is ready afterwards, where a message that carries sync announces an event
-- that the period can be adjusted to.
pub handle_in_fish_slot-HandledReady :
    (p : Platform) (a : Agent) (msg : SyncMessage) (toa : ℕ)
    → IsReady p a
    → (is_fisher a.role ≡ true) ⊎ (is_deep_fishing a.fishing.mode ≡ true)
    → IsTimely a msg toa
    → HandledReady p (handle_in_fish_slot p a msg toa)
unfolding handle_in_fish_slot does_carry_sync
handle_in_fish_slot-HandledReady p a msg toa v r h = ground (
  arith,
  λ (c : does_carry_sync msg.type ≡ true) (t : Heeds a.schedule toa msg.delta_to_next_sync_point).
      do_fished_sync_msg-HandledReady p a msg toa v r c t,
)
