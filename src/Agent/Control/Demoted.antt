-- ===== src/Agent/Control/Demoted.antt =====
-- What becomes of a master's repeated message when it hears a better clique. Code:
-- src/network/intraCliqueManager.cpp, src/network/sendRepeater.cpp, src/modules/syncBehaviour.cpp,
-- src/slots/sync/syncSlot.cpp.
use native.Mathlib.Omega.{arith}
use sleep_sync_agent.Agent.{Agent, Platform}
use sleep_sync_agent.Agent.Behaviour.{
  filter_sync_msg, handle_superior_or_same_sync_msg, handle_superior_or_same_sync_while_merging,
}
use sleep_sync_agent.Agent.Behaviour.Better.{filter_sync_msg-lesser}
use sleep_sync_agent.Agent.Control.{check_done_and_enact, enact, should_send_control_sync}
use sleep_sync_agent.Agent.Mastership.{
  heard_sync, is_self_master, should_transmit_sync, update_by_sync_message, update_mastership,
}
use sleep_sync_agent.Agent.Merging.{
  deactivate, restart_merge_policy, stop_merger, to_fisher_from_merger,
}
use sleep_sync_agent.Agent.Modes.{reset_work_state}
use sleep_sync_agent.Agent.Receiver.Slot.{heard}
use sleep_sync_agent.Agent.Roles.{to_fisher}
use sleep_sync_agent.Agent.SyncSchedule.{sync_send_task}
use sleep_sync_agent.Agent.SyncSlot.{
  Answers, decide_kind, dispatch_sync_slot_kind, prelude_to_sync_period,
}
use sleep_sync_agent.Base.{Bool, failed, ok, true, ℕ, ◌<◌, ◌≡◌, ◌≢◌}
use sleep_sync_agent.Message.{SyncMessage}
use sleep_sync_agent.Network.SendRepeater.{
  check_done_and_enact_control, on_done_repeating_upstream, should_send,
}
use sleep_sync_agent.Params.{count_repeats_per_control_sync}

-- A sync message leaves the repeater alone.
pub filter_sync_msg-keeps_repeater :
    (p : Platform) (a b : Agent) (msg : SyncMessage) (toa : ℕ) (heard : Bool)
    → filter_sync_msg p a msg toa ≡ ok (b, heard)
    → b.repeater ≡ a.repeater
unfolding filter_sync_msg update_by_sync_message update_mastership heard_sync
    handle_superior_or_same_sync_msg handle_superior_or_same_sync_while_merging stop_merger
    restart_merge_policy to_fisher_from_merger deactivate to_fisher
filter_sync_msg-keeps_repeater p a b msg toa heard e = ground arith

-- The last repeat of a unit that is not its own master.
last_repeat-failed :
    (p : Platform) (b : Agent) (v : Answers)
    → b.clique_master_id < p.system_id
    → b.repeater.is_active ≡ true
    → b.repeater.on_done_callback ≢ on_done_repeating_upstream
    → b.repeater.repeater_counter ≡ count_repeats_per_control_sync
    → v.control_toss ≡ true
    → dispatch_sync_slot_kind p b v ≡ failed
unfolding dispatch_sync_slot_kind decide_kind should_transmit_sync should_send_control_sync
    should_send check_done_and_enact check_done_and_enact_control enact sync_send_task
last_repeat-failed p b v l r f c t = ground arith

-- A master that repeats a granularity or scatter message downstream goes on repeating it when it
-- hears the sync of a better clique: if that comes when all repeats but the last are sent, and the
-- sync slot of the next period is chosen for the last, then that fails the assertion that the unit
-- is a master, when the message is enacted.
pub demoted_enact-failed :
    (p : Platform) (a b : Agent) (v : Answers) (msg : SyncMessage) (toa : ℕ) (heard : Bool)
    → is_self_master p a ≡ true
    → a.repeater.is_active ≡ true
    → a.repeater.on_done_callback ≢ on_done_repeating_upstream
    → a.repeater.repeater_counter ≡ count_repeats_per_control_sync
    → msg.master_id < p.system_id
    → filter_sync_msg p a msg toa ≡ ok (b, heard)
    → v.control_toss ≡ true
    → dispatch_sync_slot_kind p (prelude_to_sync_period b) v ≡ failed
unfolding prelude_to_sync_period reset_work_state
demoted_enact-failed p a b v msg toa heard s r f c m e t = ground (
  arith,
  last_repeat-failed p (prelude_to_sync_period b) v,
  filter_sync_msg-keeps_repeater p a b msg toa heard e,
  filter_sync_msg-lesser p a b msg toa heard e,
)
