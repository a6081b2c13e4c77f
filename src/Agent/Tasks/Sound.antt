-- ===== src/Agent/Tasks/Sound.antt =====
-- A unit stays sound around its sync slot, whatever its tasks do. Code: src/slots/sync,
-- src/syncAgentImp, src/schedule/syncSchedule.cpp, src/clique.

pub mod Running
pub mod Master
use sleep_sync_agent.Agent.{Agent, Platform}
use sleep_sync_agent.Agent.Control.{check_done_and_enact, enact, should_send_control_sync}
use sleep_sync_agent.Agent.Mastership.{should_transmit_sync}
use sleep_sync_agent.Agent.Merging.{deactivate, to_fisher_from_no_fishing, to_no_fishing_from_other}
use sleep_sync_agent.Agent.Modes.{
  check_power_and_try_mode_transitions, manage_fish_power, should_provision,
}
use sleep_sync_agent.Agent.Modes.Consistent.{IsConsistent}
use sleep_sync_agent.Agent.Receiver.Steps.{IsSound, SoundIfOk, scatter_sync-SoundIfOk}
use sleep_sync_agent.Agent.Reversion.{
  check_master_dropped_out, grab_mastership, revert_by_clique_history, revert_to_former_master,
}
use sleep_sync_agent.Agent.Reversion.Dropout.{MemberIfOk, check_master_dropped_out-MemberIfOk}
use sleep_sync_agent.Agent.Roles.{to_fisher, to_no_fishing}
use sleep_sync_agent.Agent.SyncSchedule.{
  fishing, now_til_prelude_w_fish, now_til_prelude_w_sync, omit_nonsync_slot,
  radio_prelude_task_w_fish, radio_prelude_task_w_sync, schedule_merger, schedule_provision_start,
  should_undo_after_syncing, start_fish_slot_with_prelude_done, sync_send_task,
  sync_slot_after_sync_slot, sync_slot_end_from_listen, try_undo_after_syncing, undo_prelude,
}
use sleep_sync_agent.Agent.SyncSlot.{
  Answers, bookkeeping_at_prelude_to_sync_slot, decide_kind, dispatch_sync_slot_kind, end_listen,
}
use sleep_sync_agent.Agent.Tasks.{
  dispatch_mode, pre_fishing_of_agent, schedule_non_sync_task, try_fish_or_merge,
}
use sleep_sync_agent.Base.{Checked, arith, failed, false, ok, refl, ℕ, ◌≡◌}
use sleep_sync_agent.Clique.DropoutMonitor.{is_dropout}
use sleep_sync_agent.Clique.XmitPolicy.{policy_should_transmit_sync}
use sleep_sync_agent.Fishing.FishSchedule.{set_start_and_end_times}
use sleep_sync_agent.Fishing.Manager.{get_start_time_to_fish, pre_fishing, restart_trolling_mode}
use sleep_sync_agent.Fishing.Trolling.InRange.{manage-Keeps, pre_fishing-Keeps}
use sleep_sync_agent.Network.SendRepeater.{check_done_and_enact_control, should_send}

pub schedule_non_sync_task-SoundIfOk :
    (p : Platform) (a : Agent) (v : Answers)
    → IsSound p a
    → SoundIfOk p (schedule_non_sync_task p a v)
unfolding schedule_non_sync_task pre_fishing_of_agent pre_fishing try_undo_after_syncing
    should_undo_after_syncing dispatch_mode sync_slot_after_sync_slot radio_prelude_task_w_sync
    now_til_prelude_w_sync try_fish_or_merge omit_nonsync_slot schedule_merger
    schedule_provision_start fishing undo_prelude radio_prelude_task_w_fish
    start_fish_slot_with_prelude_done now_til_prelude_w_fish set_start_and_end_times
    get_start_time_to_fish
schedule_non_sync_task-SoundIfOk p a v w =
    ground (arith, pre_fishing-Keeps a.fishing.troll w.member.trolls)

pub bookkeeping-SoundIfOk :
    (p : Platform) (a : Agent) (v : Answers)
    → IsSound p a
    → SoundIfOk p (bookkeeping_at_prelude_to_sync_slot p a v)
unfolding bookkeeping_at_prelude_to_sync_slot manage_fish_power check_power_and_try_mode_transitions
    to_no_fishing_from_other deactivate to_no_fishing to_fisher_from_no_fishing to_fisher
    should_provision
bookkeeping-SoundIfOk p a v w =
    ground (arith, manage-Keeps a.fishing.troll v.power.is_at_least_2_7 w.member.trolls)

check_done_and_enact-SoundIfOk :
    (p : Platform) (a : Agent) (random_offset : ℕ)
    → IsSound p a
    → SoundIfOk p (check_done_and_enact p a random_offset)
unfolding check_done_and_enact enact check_done_and_enact_control
check_done_and_enact-SoundIfOk p a random_offset w =
    let b = record a { repeater = record a.repeater { is_active = false; repeater_counter = 0 } } in
    ground (arith, λ (w' : IsSound p b). scatter_sync-SoundIfOk p b random_offset w')

decide_kind-IsSound :
    (p : Platform) (a : Agent) (v : Answers) → IsSound p a → IsSound p (decide_kind p a v).0
unfolding decide_kind should_transmit_sync policy_should_transmit_sync should_send_control_sync
    should_send
decide_kind-IsSound p a v w = ground arith

pub dispatch_sync_slot_kind-SoundIfOk :
    (p : Platform) (a : Agent) (v : Answers)
    → IsSound p a
    → SoundIfOk p (dispatch_sync_slot_kind p a v)
unfolding dispatch_sync_slot_kind sync_send_task sync_slot_end_from_listen
dispatch_sync_slot_kind-SoundIfOk p a v w =
    let d = decide_kind p a v in
    let b = sync_send_task p (record d.0 { sync_slot_kind = d.1 }) v.now in
    ground (
      arith,
      decide_kind-IsSound p a v w,
      λ (w' : IsSound p b). check_done_and_enact-SoundIfOk p b v.random_offset w',
    )

-- A dropout changes neither the mode nor the role nor the merger.
check_master_dropped_out-IsConsistent :
    (p : Platform) (a b : Agent) (now : ℕ)
    → IsConsistent a
    → check_master_dropped_out p a now ≡ ok b
    → IsConsistent b
unfolding check_master_dropped_out is_dropout revert_by_clique_history grab_mastership
    revert_to_former_master restart_trolling_mode
check_master_dropped_out-IsConsistent p a b now v e = ground arith

member-SoundIfOk :
    (p : Platform) (r : Checked Agent)
    → MemberIfOk p r
    → ((b : Agent) → r ≡ ok b → IsConsistent b)
    → SoundIfOk p r
member-SoundIfOk p (ok b) v f = record { member = v; consistent = f b refl }
member-SoundIfOk p failed v f = tt

pub end_listen-SoundIfOk :
    (p : Platform) (a : Agent) (now : ℕ) → IsSound p a → SoundIfOk p (end_listen p a now)
unfolding end_listen
end_listen-SoundIfOk p a now w = ground (
  arith,
  member-SoundIfOk p (check_master_dropped_out p a now)
      (check_master_dropped_out-MemberIfOk p a now w.member)
      (λ b e. check_master_dropped_out-IsConsistent p a b now w.consistent e),
)
