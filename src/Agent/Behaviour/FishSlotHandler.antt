-- ===== src/Agent/Behaviour/FishSlotHandler.antt =====
-- src/messageHandler/fishSlotMsgHandler.cpp, deepFishingMessageHandler.cpp: what a unit does with a
-- message that it hears while it fishes. `toa` is the reading of Radio::timeOfArrival().

use sleep_sync_agent.Agent.{Agent, Platform}
use sleep_sync_agent.Agent.Behaviour.SyncSlotHandler.{
  HandlingResult, keep_listening, stop_listening_heard_master_sync, stop_listening_heard_merge_sync,
  stop_listening_heard_work_sync,
}
use sleep_sync_agent.Agent.Mastership.{is_other_clique_better, update_by_sync_message}
use sleep_sync_agent.Agent.Merging.{to_merger_from_fisher}
use sleep_sync_agent.Base.{Checked, check, if◌then◌else◌, ok, ℕ, ◌>>=◌, ◌>>◌}
use sleep_sync_agent.Fishing.Manager.{deep_fishing, switch_to_trolling, trolling}
use sleep_sync_agent.Message.{
  SyncMessage, does_carry_sync, master_sync, merge_my_master_depart, merge_my_slave_depart,
  merge_other, work_sync,
}

unfoldable pub handle_catch_from_deep_fishing :
    Platform → Agent → SyncMessage → ℕ → Checked (Agent × HandlingResult)
handle_catch_from_deep_fishing p a msg toa = do
  check (does_carry_sync msg.type)
  if is_other_clique_better a msg.master_id
      then (do
        b ← update_by_sync_message a msg toa
        ok (record b { fishing = switch_to_trolling b.fishing }, stop_listening_heard_master_sync))
      else ok (a, keep_listening)

unfoldable pub do_fished_sync_msg :
    Platform → Agent → SyncMessage → ℕ → Checked (Agent × HandlingResult)
do_fished_sync_msg p a msg toa = elim a.fishing.mode [
  | trolling ↦ (do b ← to_merger_from_fisher p a msg toa; ok (b, stop_listening_heard_master_sync))
  | deep_fishing ↦ handle_catch_from_deep_fishing p a msg toa
]

-- FishSlotMessageHandler::handleWorkSyncMessage ignores how the message was handled.
stop_for_work : Checked (Agent × HandlingResult) → Checked (Agent × HandlingResult)
stop_for_work r = r >>= λ handled. ok (handled.0, stop_listening_heard_work_sync)

-- FishSlotMessageHandler::handle
unfoldable pub handle_in_fish_slot :
    Platform → Agent → SyncMessage → ℕ → Checked (Agent × HandlingResult)
unfolding stop_for_work
handle_in_fish_slot p a msg toa = elim msg.type [
  | master_sync ↦ do_fished_sync_msg p a msg toa
  | work_sync ↦ stop_for_work (do_fished_sync_msg p a msg toa)
  | merge_my_master_depart ↦ ok (a, stop_listening_heard_merge_sync)
  | merge_my_slave_depart ↦ ok (a, stop_listening_heard_merge_sync)
  | merge_other ↦ ok (a, stop_listening_heard_merge_sync)
  | _ ↦ ok (a, keep_listening)
]
