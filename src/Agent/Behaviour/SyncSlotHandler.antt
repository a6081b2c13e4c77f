-- ===== src/Agent/Behaviour/SyncSlotHandler.antt =====
-- src/messageHandler/syncSlotMsgHandler.cpp, commonMessageHandler.cpp: what a unit does with a
-- message that it hears in a sync slot. `toa` is the reading of Radio::timeOfArrival(), `now` that
-- of the clock, `random_offset` what Random answers to a scatter.

use sleep_sync_agent.Agent.{Agent, Platform}
use sleep_sync_agent.Agent.Behaviour.{filter_sync_msg}
use sleep_sync_agent.Agent.Control.{
  handle_net_granularity_message, handle_scatter_message, handle_work_cycle_message,
  handle_work_time_message,
}
use sleep_sync_agent.Agent.Mastership.{assume_mastership, is_msg_from_my_clique}
use sleep_sync_agent.Agent.Modes.{hear_work}
use sleep_sync_agent.Base.{Bool, Checked, if◌then◌else◌, not, ok, u32, u8, ℕ, ◌+◌, ◌==◌, ◌>>=◌, ◌∷◌}
use sleep_sync_agent.Fishing.DeepFishing.{DoneCallback, end_with_no_action, end_with_recover_master}
use sleep_sync_agent.Fishing.Manager.{switch_to_deep_fishing}
use sleep_sync_agent.Message.{
  MessageType, SyncMessage, abandon_mastership, control_net_granularity, control_scatter_clique,
  control_work_cycle, control_work_time, info, master_sync, merge_my_master_depart,
  merge_my_slave_depart, merge_other, work_sync,
}
use sleep_sync_agent.Network.Granularity.{get_from_raw, get_raw, try_set_granularity}
use sleep_sync_agent.Schedule.{adjusted_event_time_from_msg, delta_past_sync_point_to_now}

pub data HandlingResult : Type 0 where
  keep_listening stop_listening_heard_master_sync : HandlingResult
  stop_listening_heard_work_sync stop_listening_heard_merge_sync : HandlingResult

relay_heard_work_to_app : Agent → ℕ → Agent
relay_heard_work_to_app a work = record a { relayed = work ∷ a.relayed }

unfoldable pub handle_work_aspect : Agent → SyncMessage → Agent
unfolding relay_heard_work_to_app hear_work
handle_work_aspect a msg =
    if is_msg_from_my_clique a msg.master_id
    then relay_heard_work_to_app (hear_work a) msg.work
    else a

unfoldable pub result_of_sync : Agent × Bool → Agent × HandlingResult
result_of_sync (a, heard) = (a, if heard then stop_listening_heard_master_sync else keep_listening)

unfoldable pub handle_sync_aspect :
    Platform → Agent → SyncMessage → ℕ → Checked (Agent × HandlingResult)
unfolding result_of_sync
handle_sync_aspect p a msg toa = do r ← filter_sync_msg p a msg toa; ok (result_of_sync r)

-- `trySetGranularity` is called where the granularity differs from the clique's.
unfoldable pub handle_granularity_aspect : Agent → SyncMessage → Agent
unfolding get_raw
handle_granularity_aspect a msg =
    let new_granularity = get_from_raw msg.work in
    if not (get_raw new_granularity == get_raw a.power.granularity)
    then record a { power = try_set_granularity a.power new_granularity }
    else a

unfoldable pub get_fishing_delta_from_merge_msg : Platform → Agent → SyncMessage → ℕ → ℕ → ℕ
get_fishing_delta_from_merge_msg p a msg toa now =
    let time_of_sync_pt = adjusted_event_time_from_msg toa msg.delta_to_next_sync_point in
    u32 (
      p.time.clamped_time_difference time_of_sync_pt now
      + delta_past_sync_point_to_now p.time a.schedule now)

-- The three messages of the merge class, and the count of them, an unsigned char.
handle_merge_class : Platform → Agent → SyncMessage → DoneCallback → ℕ → ℕ → Agent
handle_merge_class p a msg callback toa now = record a {
  fishing =
      switch_to_deep_fishing a.fishing (get_fishing_delta_from_merge_msg p a msg toa now) callback;
  count_merge_sync_heard = u8 (a.count_merge_sync_heard + 1);
}

and_keep_listening : Checked Agent → Checked (Agent × HandlingResult)
and_keep_listening r = r >>= λ a. ok (a, keep_listening)

-- SyncSlotMessageHandler::handle
unfoldable pub handle_in_sync_slot :
    Platform → Agent → SyncMessage → ℕ → ℕ → ℕ → Checked (Agent × HandlingResult)
unfolding handle_merge_class and_keep_listening
handle_in_sync_slot p a msg toa now random_offset = elim msg.type [
  | master_sync ↦ handle_sync_aspect p (handle_granularity_aspect a msg) msg toa
  | merge_other ↦ ok (handle_merge_class p a msg end_with_no_action toa now, keep_listening)
  | merge_my_master_depart ↦
      ok (handle_merge_class p a msg end_with_recover_master toa now, keep_listening)
  | merge_my_slave_depart ↦
      ok (handle_merge_class p a msg end_with_no_action toa now, keep_listening)
  | work_sync ↦ handle_sync_aspect p (handle_work_aspect a msg) msg toa
  | abandon_mastership ↦ ok (assume_mastership p a, keep_listening)
  | info ↦ ok (a, keep_listening)
  | control_net_granularity ↦ ok (handle_net_granularity_message p a msg, keep_listening)
  | control_scatter_clique ↦ and_keep_listening (handle_scatter_message p a msg random_offset)
  | control_work_time ↦ ok (handle_work_time_message p a msg, keep_listening)
  | control_work_cycle ↦ ok (handle_work_cycle_message p a msg, keep_listening)
  | MessageType.invalid ↦ ok (a, keep_listening)
]
