-- ===== src/Agent/Tasks/Sent.antt =====
-- What a unit's tasks send fits the bytes of the wire. Code: src/task, src/modules/syncSender.cpp,
-- src/message/messageFactory.h, src/provisioning/provisionTask.cpp.

pub mod Running
use sleep_sync_agent.Agent.{Agent, Platform}
use sleep_sync_agent.Agent.Control.{check_done_and_enact, enact, should_send_control_sync}
use sleep_sync_agent.Agent.Mastership.{should_transmit_sync}
use sleep_sync_agent.Agent.Merging.{
  deactivate, make_merge_msg, to_fisher_from_no_fishing, to_no_fishing_from_other,
}
use sleep_sync_agent.Agent.Modes.{
  check_power_and_try_mode_transitions, manage_fish_power, should_provision,
}
use sleep_sync_agent.Agent.Roles.{to_fisher, to_no_fishing}
use sleep_sync_agent.Agent.Sender.{
  make_sync, send_control_sync, send_master_sync, send_merge_sync, send_work_sync,
}
use sleep_sync_agent.Agent.SyncSchedule.{
  fishing, now_til_prelude_w_fish, now_til_prelude_w_sync, omit_nonsync_slot,
  radio_prelude_task_w_fish, radio_prelude_task_w_sync, schedule_merger, schedule_provision_start,
  should_undo_after_syncing, start_fish_slot_with_prelude_done, sync_send_task,
  sync_slot_after_sync_slot, sync_slot_end_from_listen, sync_slot_end_from_send,
  try_undo_after_syncing, undo_prelude,
}
use sleep_sync_agent.Agent.SyncSlot.{
  Answers, bookkeeping_at_prelude_to_sync_slot, decide_kind, dispatch_sync_slot_kind,
}
use sleep_sync_agent.Agent.Tasks.{
  dispatch_mode, message_for_kind, pre_fishing_of_agent, run_send_sync, schedule_non_sync_task,
  try_fish_or_merge,
}
use sleep_sync_agent.Agent.Wire.{FitsIfOk, FitsWire, scatter_sync-FitsIfOk}
use sleep_sync_agent.Base.{Bool, Checked, arith, failed, false, ok, ℕ, ◌<◌, ◌^◌}
use sleep_sync_agent.Clique.XmitPolicy.{policy_should_transmit_sync}
use sleep_sync_agent.Fishing.Manager.{pre_fishing}
use sleep_sync_agent.Message.{MessageType, SyncMessage, master_sync, work_sync}
use sleep_sync_agent.Message.MessageFactory.{init_merge_sync_message, init_sync_message}
use sleep_sync_agent.Message.RoundTrip.{IsSendable}
use sleep_sync_agent.Network.Granularity.{get_raw}
use sleep_sync_agent.Network.SendRepeater.{check_done_and_enact_control, should_send}

abbrev SendableIfOk : Checked SyncMessage → Type 0
SendableIfOk (ok m) = IsSendable m
SendableIfOk failed = Unit {0}

make_sync-SendableIfOk :
    (p : Platform) (a : Agent) (message : SyncMessage) (t : MessageType) (work now : ℕ)
    → FitsWire a
    → work < 256
    → SendableIfOk (make_sync p a message t work now)
unfolding make_sync init_sync_message
make_sync-SendableIfOk p a message t work now v k = ground arith

pub send_merge_sync-SendableIfOk :
    (p : Platform) (a : Agent) (message : SyncMessage) (now : ℕ)
    → FitsWire a
    → SendableIfOk (send_merge_sync p a message now)
unfolding send_merge_sync make_merge_msg init_merge_sync_message
send_merge_sync-SendableIfOk p a message now v = ground arith

message_for_kind-SendableIfOk :
    (p : Platform) (a : Agent) (v : Answers)
    → FitsWire a
    → v.mail < 256
    → SendableIfOk (message_for_kind p a v)
unfolding message_for_kind send_work_sync send_master_sync send_control_sync get_raw
message_for_kind-SendableIfOk p a v w k = ground (
  arith,
  make_sync-SendableIfOk p a v.message work_sync v.mail v.now w k,
  make_sync-SendableIfOk p a v.message master_sync (get_raw a.power.granularity) v.now w
      (ground arith),
  make_sync-SendableIfOk p a v.message a.repeater.message_type a.repeater.a_value v.now w w.value,
)

pub run_send_sync-FitsIfOk :
    (p : Platform) (a : Agent) (v : Answers)
    → FitsWire a
    → v.mail < 256
    → FitsIfOk (run_send_sync p a v)
unfolding run_send_sync sync_slot_end_from_send
run_send_sync-FitsIfOk p a v w k = ground (arith, message_for_kind-SendableIfOk p a v w k)

pub schedule_non_sync_task-FitsIfOk :
    (p : Platform) (a : Agent) (v : Answers) → FitsWire a → FitsIfOk (schedule_non_sync_task p a v)
unfolding schedule_non_sync_task pre_fishing_of_agent pre_fishing try_undo_after_syncing
    should_undo_after_syncing dispatch_mode sync_slot_after_sync_slot radio_prelude_task_w_sync
    now_til_prelude_w_sync try_fish_or_merge omit_nonsync_slot schedule_merger
    schedule_provision_start fishing undo_prelude radio_prelude_task_w_fish
    start_fish_slot_with_prelude_done now_til_prelude_w_fish
schedule_non_sync_task-FitsIfOk p a v w = ground arith

pub bookkeeping-FitsIfOk :
    (p : Platform) (a : Agent) (v : Answers)
    → FitsWire a
    → FitsIfOk (bookkeeping_at_prelude_to_sync_slot p a v)
unfolding bookkeeping_at_prelude_to_sync_slot manage_fish_power check_power_and_try_mode_transitions
    to_no_fishing_from_other deactivate to_no_fishing to_fisher_from_no_fishing to_fisher
    should_provision
bookkeeping-FitsIfOk p a v w = ground arith

check_done_and_enact-FitsIfOk :
    (p : Platform) (a : Agent) (random_offset : ℕ)
    → FitsWire a
    → p.system_id < 2 ^ 48
    → FitsIfOk (check_done_and_enact p a random_offset)
unfolding check_done_and_enact enact check_done_and_enact_control
check_done_and_enact-FitsIfOk p a random_offset w k =
    let b = record a { repeater = record a.repeater { is_active = false; repeater_counter = 0 } } in
    ground (arith, λ (w' : FitsWire b). scatter_sync-FitsIfOk p b random_offset w' k)

should_transmit_sync-FitsWire :
    (p : Platform) (a : Agent) (alarm coin : Bool)
    → FitsWire a
    → FitsWire (should_transmit_sync p a alarm coin).0
unfolding should_transmit_sync policy_should_transmit_sync
should_transmit_sync-FitsWire p a alarm coin w = ground arith

should_send_control_sync-FitsWire :
    (a : Agent) (coin : Bool) → FitsWire a → FitsWire (should_send_control_sync a coin).0
unfolding should_send_control_sync should_send
should_send_control_sync-FitsWire a coin w = ground arith

decide_kind-FitsWire :
    (p : Platform) (a : Agent) (v : Answers) → FitsWire a → FitsWire (decide_kind p a v).0
unfolding decide_kind
decide_kind-FitsWire p a v w =
    should_send_control_sync-FitsWire (should_transmit_sync p a v.alarm v.sync_toss).0
      v.control_toss (should_transmit_sync-FitsWire p a v.alarm v.sync_toss w)

pub dispatch_sync_slot_kind-FitsIfOk :
    (p : Platform) (a : Agent) (v : Answers)
    → FitsWire a
    → p.system_id < 2 ^ 48
    → FitsIfOk (dispatch_sync_slot_kind p a v)
unfolding dispatch_sync_slot_kind sync_send_task sync_slot_end_from_listen
dispatch_sync_slot_kind-FitsIfOk p a v w k =
    let d = decide_kind p a v in
    let b = sync_send_task p (record d.0 { sync_slot_kind = d.1 }) v.now in
    ground (
      arith,
      decide_kind-FitsWire p a v w,
      λ (w' : FitsWire b). check_done_and_enact-FitsIfOk p b v.random_offset w' k,
    )
