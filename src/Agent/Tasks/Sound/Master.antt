-- ===== src/Agent/Tasks/Sound/Master.antt =====
-- No task takes a unit into a clique that it has not heard. Code: src/task, src/clique,
-- src/provisioning/provisionTask.cpp.

use sleep_sync_agent.Agent.{
  Agent, Platform, Task, end_sync_slot_listen, end_sync_slot_send, fish_slot_end, fish_slot_start,
  merger_start_and_end, power_reserve_check, prelude_w_fish, prelude_w_sync, provision_end,
  provision_start, send_sync_task, start_sync_period_maintain, start_sync_slot_after_prelude,
  start_sync_slot_without_scheduled_prelude,
}
use sleep_sync_agent.Agent.Control.{check_done_and_enact, enact, should_send_control_sync}
use sleep_sync_agent.Agent.Mastership.{assume_mastership, should_transmit_sync, update_mastership}
use sleep_sync_agent.Agent.Merging.{
  check_completion_of_merger_role, deactivate, restart_merge_policy, stop_merger,
  to_fisher_from_merger, to_fisher_from_no_fishing, to_no_fishing_from_other,
}
use sleep_sync_agent.Agent.Modes.{
  check_power_and_try_mode_transitions, reset_work_state, should_provision,
}
use sleep_sync_agent.Agent.Receiver.Steps.{IsSound}
use sleep_sync_agent.Agent.Reversion.{
  check_master_dropped_out, grab_mastership, revert_by_clique_history, revert_to_former_master,
  scatter_sync,
}
use sleep_sync_agent.Agent.Roles.{to_fisher, to_no_fishing}
use sleep_sync_agent.Agent.SyncSchedule.{
  do_prelude, fishing, maintain_sync_period, now_til_prelude_w_fish, now_til_prelude_w_sync,
  omit_nonsync_slot, radio_prelude_task_w_fish, radio_prelude_task_w_sync, schedule_fish_slot_end,
  schedule_merger, schedule_provision_start, should_undo_after_syncing,
  start_fish_slot_from_prelude_start, start_fish_slot_with_prelude_done,
  start_sync_slot_from_prelude_start, start_sync_slot_with_prelude_done, sync_send_task,
  sync_slot_after_fish_slot, sync_slot_after_merging, sync_slot_after_provisioning,
  sync_slot_after_sync_slot, sync_slot_end_from_listen, sync_slot_end_from_send,
  try_undo_after_syncing, undo_prelude,
}
use sleep_sync_agent.Agent.SyncSlot.{
  Answers, bookkeeping_at_prelude_to_sync_slot, decide_kind, dispatch_sync_slot_kind, end_listen,
  prelude_to_sync_period,
}
use sleep_sync_agent.Agent.Tasks.{
  dispatch_mode, end_deep_fishing, pre_fishing_of_agent, run, run_fish_slot_end,
  run_fish_slot_start, run_merger_start_and_end, run_prelude_w_sync, run_provision_start,
  run_send_sync, run_start_sync_period_maintain, run_start_sync_slot_after_prelude,
  schedule_non_sync_task, stop_merger_if, try_fish_or_merge,
}
use sleep_sync_agent.Base.{Checked, arith, failed, ok, refl, ℕ, ◌>>=◌, ◌≡◌, ◌≢◌, ◌⊎◌}
use sleep_sync_agent.Clique.CliqueHistory.{current_clique_record_master_id}
use sleep_sync_agent.Fishing.FishSchedule.{set_start_and_end_times}
use sleep_sync_agent.Fishing.Manager.{restart_trolling_mode}

-- The clique is the same as before, or the unit's own.
abbrev pub KeepsOrOwns : Platform → Agent → Checked Agent → Type 0
KeepsOrOwns p a (ok b) =
    (b.clique_master_id ≡ a.clique_master_id) ⊎ (b.clique_master_id ≡ p.system_id)
KeepsOrOwns p a failed = Unit {0}

KeepsOrOwns-trans :
    (p : Platform) (a b : Agent) (r : Checked Agent)
    → KeepsOrOwns p a (ok b)
    → KeepsOrOwns p b r
    → KeepsOrOwns p a r
KeepsOrOwns-trans p a b (ok c) h k = ground arith
KeepsOrOwns-trans p a b failed h k = tt

KeepsOrOwns-bind :
    (p : Platform) (a : Agent) (r : Checked Agent) (f : Agent → Checked Agent)
    → KeepsOrOwns p a r
    → ((b : Agent) → KeepsOrOwns p b (f b))
    → KeepsOrOwns p a (r >>= f)
KeepsOrOwns-bind p a (ok b) f h k = KeepsOrOwns-trans p a b (f b) h (k b)
KeepsOrOwns-bind p a failed f h k = tt

end_listen-KeepsOrOwns :
    (p : Platform) (a : Agent) (now : ℕ) → IsSound p a → KeepsOrOwns p a (end_listen p a now)
unfolding end_listen check_master_dropped_out revert_by_clique_history grab_mastership
    revert_to_former_master update_mastership restart_trolling_mode current_clique_record_master_id
end_listen-KeepsOrOwns p a now w = ground (arith, w.member.first_is_self)

schedule_non_sync_task-KeepsOrOwns :
    (p : Platform) (a : Agent) (v : Answers) → KeepsOrOwns p a (schedule_non_sync_task p a v)
unfolding schedule_non_sync_task pre_fishing_of_agent try_undo_after_syncing
    should_undo_after_syncing dispatch_mode sync_slot_after_sync_slot radio_prelude_task_w_sync
    now_til_prelude_w_sync try_fish_or_merge omit_nonsync_slot schedule_merger
    schedule_provision_start fishing undo_prelude radio_prelude_task_w_fish
    start_fish_slot_with_prelude_done now_til_prelude_w_fish set_start_and_end_times
schedule_non_sync_task-KeepsOrOwns p a v = ground arith

bookkeeping-KeepsOrOwns :
    (p : Platform) (a : Agent) (v : Answers)
    → KeepsOrOwns p a (bookkeeping_at_prelude_to_sync_slot p a v)
unfolding bookkeeping_at_prelude_to_sync_slot check_power_and_try_mode_transitions
    to_no_fishing_from_other deactivate to_no_fishing to_fisher_from_no_fishing to_fisher
    should_provision
bookkeeping-KeepsOrOwns p a v = ground arith

dispatch_sync_slot_kind-KeepsOrOwns :
    (p : Platform) (a : Agent) (v : Answers) → KeepsOrOwns p a (dispatch_sync_slot_kind p a v)
unfolding dispatch_sync_slot_kind decide_kind should_transmit_sync should_send_control_sync
    check_done_and_enact enact scatter_sync grab_mastership restart_trolling_mode sync_send_task
    sync_slot_end_from_listen
dispatch_sync_slot_kind-KeepsOrOwns p a v = ground arith

run_start-KeepsOrOwns :
    (p : Platform) (a : Agent) (v : Answers)
    → KeepsOrOwns p a (run_start_sync_slot_after_prelude p a v)
      × KeepsOrOwns p a (run_start_sync_period_maintain p a v)
      × KeepsOrOwns p a (run_prelude_w_sync p a v)
unfolding run_start_sync_slot_after_prelude run_start_sync_period_maintain run_prelude_w_sync
    prelude_to_sync_period reset_work_state maintain_sync_period undo_prelude
    radio_prelude_task_w_sync now_til_prelude_w_sync do_prelude start_sync_slot_from_prelude_start
run_start-KeepsOrOwns p a v = ground (
  arith,
  bookkeeping-KeepsOrOwns p a v,
  dispatch_sync_slot_kind-KeepsOrOwns p (prelude_to_sync_period a) v,
  bookkeeping-KeepsOrOwns p (do_prelude (start_sync_slot_from_prelude_start a)) v,
)

run_slot_end-KeepsOrOwns :
    (p : Platform) (a : Agent) (v : Answers)
    → KeepsOrOwns p a (run_fish_slot_end p a v)
      × KeepsOrOwns p a (run_merger_start_and_end p a v)
      × KeepsOrOwns p a (run_provision_start p a v)
      × KeepsOrOwns p a (sync_slot_after_provisioning p a v.now)
unfolding run_fish_slot_end end_deep_fishing assume_mastership sync_slot_after_fish_slot
    undo_prelude radio_prelude_task_w_sync start_sync_slot_with_prelude_done now_til_prelude_w_sync
    run_merger_start_and_end stop_merger_if check_completion_of_merger_role stop_merger
    restart_merge_policy to_fisher_from_merger deactivate to_fisher sync_slot_after_merging
    run_provision_start sync_slot_after_provisioning
run_slot_end-KeepsOrOwns p a v = ground arith

-- A task of a sound unit leaves it in its clique or takes it into its own.
pub run-KeepsOrOwns :
    (p : Platform) (a : Agent) (v : Answers) (task : Task)
    → IsSound p a
    → task ≢ power_reserve_check
    → KeepsOrOwns p a (run p a v task)
unfolding run run_fish_slot_start schedule_fish_slot_end do_prelude run_send_sync
    start_fish_slot_from_prelude_start sync_slot_end_from_send
run-KeepsOrOwns p a v power_reserve_check w k = absurd (k refl)
run-KeepsOrOwns p a v start_sync_period_maintain w k = (run_start-KeepsOrOwns p a v).1
run-KeepsOrOwns p a v prelude_w_sync w k = (run_start-KeepsOrOwns p a v).2
run-KeepsOrOwns p a v prelude_w_fish w k = ground arith
run-KeepsOrOwns p a v start_sync_slot_after_prelude w k = (run_start-KeepsOrOwns p a v).0
run-KeepsOrOwns p a v start_sync_slot_without_scheduled_prelude w k =
    (run_start-KeepsOrOwns p a v).0
run-KeepsOrOwns p a v send_sync_task w k = ground arith
run-KeepsOrOwns p a v end_sync_slot_listen w k =
    KeepsOrOwns-bind p a (end_listen p a v.now) (λ b. schedule_non_sync_task p b v)
      (end_listen-KeepsOrOwns p a v.now w) (λ b. schedule_non_sync_task-KeepsOrOwns p b v)
run-KeepsOrOwns p a v end_sync_slot_send w k =
    ground (arith, schedule_non_sync_task-KeepsOrOwns p a v)
run-KeepsOrOwns p a v fish_slot_start w k = ground arith
run-KeepsOrOwns p a v fish_slot_end w k = (run_slot_end-KeepsOrOwns p a v).0
run-KeepsOrOwns p a v merger_start_and_end w k = (run_slot_end-KeepsOrOwns p a v).1
run-KeepsOrOwns p a v provision_start w k = (run_slot_end-KeepsOrOwns p a v).2
run-KeepsOrOwns p a v provision_end w k = (run_slot_end-KeepsOrOwns p a v).3
