-- ===== src/Agent/Receiver/Invariant.antt =====
-- A unit stays sound whatever message it hears. Code: src/messageHandler/syncSlotMsgHandler.cpp,
-- fishSlotMsgHandler.cpp, deepFishingMessageHandler.cpp, messageDispatcher.cpp.
use native.Mathlib.Omega.{arith}
use sleep_sync_agent.Agent.{Agent, Platform}
use sleep_sync_agent.Agent.Behaviour.FishSlotHandler.{
  do_fished_sync_msg, handle_catch_from_deep_fishing, handle_in_fish_slot,
}
use sleep_sync_agent.Agent.Behaviour.SyncSlotHandler.{
  get_fishing_delta_from_merge_msg, handle_granularity_aspect, handle_in_sync_slot,
  handle_work_aspect,
}
use sleep_sync_agent.Agent.Receiver.Steps.{
  HandledSoundly, IsSound, assume_mastership-IsSound, handle_granularity_aspect-IsSound,
  handle_net_granularity_message-IsSound, handle_scatter_message-SoundIfOk,
  handle_sync_aspect-HandledSoundly, handle_work_aspect-IsSound, handle_work_messages-IsSound,
  refished-IsSound, switch_to_deep_fishing-troll, to_merger_from_fisher-SoundIfOk,
  update_by_sync_message-SoundIfOk,
}
use sleep_sync_agent.Base.{refl, u8, ℕ, ◌+◌, ◌≡◌}
use sleep_sync_agent.Fishing.DeepFishing.{end_with_no_action, end_with_recover_master}
use sleep_sync_agent.Fishing.Manager.{switch_to_deep_fishing, switch_to_trolling}
use sleep_sync_agent.Message.{
  MessageType, SyncMessage, abandon_mastership, control_net_granularity, control_scatter_clique,
  control_work_cycle, control_work_time, info, master_sync, merge_my_master_depart,
  merge_my_slave_depart, merge_other, work_sync,
}

handle_by_type :
    (p : Platform) (a : Agent) (msg : SyncMessage) (toa now random_offset : ℕ) (t : MessageType)
    → msg.type ≡ t
    → IsSound p a
    → HandledSoundly p (handle_in_sync_slot p a msg toa now random_offset)
unfolding handle_in_sync_slot
handle_by_type p a msg toa now random_offset master_sync e v = ground (
  arith,
  handle_sync_aspect-HandledSoundly p (handle_granularity_aspect a msg) msg toa
      (handle_granularity_aspect-IsSound p a msg v),
)
handle_by_type p a msg toa now random_offset work_sync e v = ground (
  arith,
  handle_sync_aspect-HandledSoundly p (handle_work_aspect a msg) msg toa
      (handle_work_aspect-IsSound p a msg v),
)
handle_by_type p a msg toa now random_offset control_net_granularity e v =
    ground (arith, handle_net_granularity_message-IsSound p a msg v)
handle_by_type p a msg toa now random_offset control_scatter_clique e v =
    ground (arith, handle_scatter_message-SoundIfOk p a msg random_offset v)
handle_by_type p a msg toa now random_offset control_work_time e v =
    ground (arith, handle_work_messages-IsSound p a msg v)
handle_by_type p a msg toa now random_offset control_work_cycle e v =
    ground (arith, handle_work_messages-IsSound p a msg v)
handle_by_type p a msg toa now random_offset abandon_mastership e v =
    ground (arith, assume_mastership-IsSound p a v)
handle_by_type p a msg toa now random_offset merge_my_master_depart e v =
    let delta = get_fishing_delta_from_merge_msg p a msg toa now in
    let deep = switch_to_deep_fishing a.fishing delta end_with_recover_master in
    ground (
      arith,
      refished-IsSound p a deep (u8 (a.count_merge_sync_heard + 1)) v
          (switch_to_deep_fishing-troll a.fishing delta end_with_recover_master),
    )
handle_by_type p a msg toa now random_offset merge_other e v =
    let delta = get_fishing_delta_from_merge_msg p a msg toa now in
    let deep = switch_to_deep_fishing a.fishing delta end_with_no_action in
    ground (
      arith,
      refished-IsSound p a deep (u8 (a.count_merge_sync_heard + 1)) v
          (switch_to_deep_fishing-troll a.fishing delta end_with_no_action),
    )
handle_by_type p a msg toa now random_offset merge_my_slave_depart e v =
    let delta = get_fishing_delta_from_merge_msg p a msg toa now in
    let deep = switch_to_deep_fishing a.fishing delta end_with_no_action in
    ground (
      arith,
      refished-IsSound p a deep (u8 (a.count_merge_sync_heard + 1)) v
          (switch_to_deep_fishing-troll a.fishing delta end_with_no_action),
    )
handle_by_type p a msg toa now random_offset info e v = ground arith
handle_by_type p a msg toa now random_offset MessageType.invalid e v = ground arith

-- A sound unit that handles any message in a sync slot is sound afterwards, or stopped by an
-- assertion.
pub handle_in_sync_slot-HandledSoundly :
    (p : Platform) (a : Agent) (msg : SyncMessage) (toa now random_offset : ℕ)
    → IsSound p a
    → HandledSoundly p (handle_in_sync_slot p a msg toa now random_offset)
handle_in_sync_slot-HandledSoundly p a msg toa now random_offset v =
    handle_by_type p a msg toa now random_offset msg.type refl v

-- A sound unit that handles any message in a fish slot is sound afterwards, or stopped by an
-- assertion.
pub handle_in_fish_slot-HandledSoundly :
    (p : Platform) (a : Agent) (msg : SyncMessage) (toa : ℕ)
    → IsSound p a
    → HandledSoundly p (handle_in_fish_slot p a msg toa)
unfolding handle_in_fish_slot do_fished_sync_msg handle_catch_from_deep_fishing switch_to_trolling
handle_in_fish_slot-HandledSoundly p a msg toa v = ground (
  arith,
  to_merger_from_fisher-SoundIfOk p a msg toa v,
  update_by_sync_message-SoundIfOk p a msg toa v,
)
