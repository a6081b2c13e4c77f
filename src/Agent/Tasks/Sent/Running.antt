-- ===== src/Agent/Tasks/Sent/Running.antt =====
-- No task leaves a state that does not fit the wire. Code: src/task/task.cpp, fishTask.cpp,
-- mergerTask.cpp, checkPowerReserve.cpp, src/provisioning/provisionTask.cpp.

use sleep_sync_agent.Agent.{
  Agent, Platform, Task, end_sync_slot_listen, end_sync_slot_send, fish_slot_end, fish_slot_start,
  merger_start_and_end, power_reserve_check, prelude_w_fish, prelude_w_sync, provision_end,
  provision_start, send_sync_task, start_sync_period_maintain, start_sync_slot_after_prelude,
  start_sync_slot_without_scheduled_prelude,
}
use sleep_sync_agent.Agent.Mastership.{assume_mastership, init_clique, set_self_mastership}
use sleep_sync_agent.Agent.Merging.{
  check_completion_of_merger_role, deactivate, restart_merge_policy, stop_merger,
  to_fisher_from_merger,
}
use sleep_sync_agent.Agent.Modes.{reset_to_mode_maintain, reset_work_state}
use sleep_sync_agent.Agent.Roles.{to_fisher, to_no_fishing}
use sleep_sync_agent.Agent.SyncSchedule.{
  check_power_reserve_later, do_prelude, maintain_sync_period, now_til_prelude_w_sync,
  radio_prelude_task_w_sync, schedule_fish_slot_end, start_fish_slot_from_prelude_start,
  start_sync_slot_from_prelude_start, start_sync_slot_with_prelude_done, sync_slot_after_fish_slot,
  sync_slot_after_merging, sync_slot_after_provisioning, undo_prelude,
}
use sleep_sync_agent.Agent.SyncSlot.{
  Answers, end_listen, init_agent, prelude_to_loop, prelude_to_sync_period,
}
use sleep_sync_agent.Agent.Tasks.{
  end_deep_fishing, run, run_fish_slot_end, run_fish_slot_start, run_merger_start_and_end,
  run_power_reserve_check, run_prelude_w_sync, run_provision_start, run_start_sync_period_maintain,
  run_start_sync_slot_after_prelude, schedule_non_sync_task, stop_merger_if,
}
use sleep_sync_agent.Agent.Tasks.Sent.{
  bookkeeping-FitsIfOk, dispatch_sync_slot_kind-FitsIfOk, run_send_sync-FitsIfOk,
  schedule_non_sync_task-FitsIfOk, send_merge_sync-SendableIfOk,
}
use sleep_sync_agent.Agent.Wire.{
  FitsIfOk, FitsIfOk-bind, FitsWire, check_master_dropped_out-FitsIfOk,
}
use sleep_sync_agent.Base.{arith, ℕ, ◌<◌, ◌^◌}
use sleep_sync_agent.Clique.CliqueHistory.{init_history}

before_sync_slot-FitsIfOk :
    (p : Platform) (a : Agent) (now : ℕ)
    → FitsWire a
    → FitsIfOk (sync_slot_after_fish_slot p a now)
      × FitsIfOk (sync_slot_after_merging p a now)
      × FitsIfOk (sync_slot_after_provisioning p a now)
unfolding sync_slot_after_fish_slot sync_slot_after_merging sync_slot_after_provisioning
    undo_prelude radio_prelude_task_w_sync start_sync_slot_with_prelude_done now_til_prelude_w_sync
before_sync_slot-FitsIfOk p a now w = ground arith

run_start-FitsIfOk :
    (p : Platform) (a : Agent) (v : Answers)
    → FitsWire a
    → p.system_id < 2 ^ 48
    → FitsIfOk (run_start_sync_slot_after_prelude p a v)
      × FitsIfOk (run_start_sync_period_maintain p a v)
      × FitsIfOk (run_prelude_w_sync p a v)
unfolding run_start_sync_slot_after_prelude run_start_sync_period_maintain run_prelude_w_sync
    prelude_to_sync_period reset_work_state maintain_sync_period undo_prelude
    radio_prelude_task_w_sync now_til_prelude_w_sync do_prelude start_sync_slot_from_prelude_start
run_start-FitsIfOk p a v w k =
    let b = prelude_to_sync_period a in
    let c = do_prelude (start_sync_slot_from_prelude_start a) in
    ground (
      arith,
      bookkeeping-FitsIfOk p a v w,
      λ (w' : FitsWire b). dispatch_sync_slot_kind-FitsIfOk p b v w' k,
      λ (w' : FitsWire c). bookkeeping-FitsIfOk p c v w',
    )

run_fish_slot_end-FitsIfOk :
    (p : Platform) (a : Agent) (v : Answers)
    → FitsWire a
    → p.system_id < 2 ^ 48
    → FitsIfOk (run_fish_slot_end p a v)
unfolding run_fish_slot_end end_deep_fishing assume_mastership set_self_mastership
    sync_slot_after_fish_slot undo_prelude radio_prelude_task_w_sync
    start_sync_slot_with_prelude_done now_til_prelude_w_sync
run_fish_slot_end-FitsIfOk p a v w k = ground arith

run_merger_start_and_end-FitsIfOk :
    (p : Platform) (a : Agent) (v : Answers)
    → FitsWire a
    → FitsIfOk (run_merger_start_and_end p a v)
unfolding run_merger_start_and_end stop_merger_if check_completion_of_merger_role stop_merger
    restart_merge_policy to_fisher_from_merger deactivate to_fisher sync_slot_after_merging
    undo_prelude radio_prelude_task_w_sync start_sync_slot_with_prelude_done now_til_prelude_w_sync
run_merger_start_and_end-FitsIfOk p a v w =
    ground (arith, send_merge_sync-SendableIfOk p a v.message v.now w)

run_power_reserve_check-FitsIfOk :
    (p : Platform) (a : Agent) (v : Answers)
    → FitsWire a
    → p.system_id < 2 ^ 48
    → FitsIfOk (run_power_reserve_check p a v)
unfolding run_power_reserve_check check_power_reserve_later maintain_sync_period init_agent
    prelude_to_loop init_clique reset_to_mode_maintain to_no_fishing init_history
    set_self_mastership
run_power_reserve_check-FitsIfOk p a v w k = ground arith

run_provision-FitsIfOk :
    (p : Platform) (a : Agent) (v : Answers)
    → FitsWire a
    → FitsIfOk (run_provision_start p a v) × FitsIfOk (sync_slot_after_provisioning p a v.now)
unfolding run_provision_start
run_provision-FitsIfOk p a v w = ground (arith, (before_sync_slot-FitsIfOk p a v.now w).2)

-- The sync slot's listening is over: what follows is scheduled.
run_end_listen-FitsIfOk :
    (p : Platform) (a : Agent) (v : Answers)
    → FitsWire a
    → p.system_id < 2 ^ 48
    → FitsIfOk (run p a v end_sync_slot_listen)
unfolding run end_listen
run_end_listen-FitsIfOk p a v w k =
    FitsIfOk-bind (end_listen p a v.now) (λ b. schedule_non_sync_task p b v)
      (ground (arith, check_master_dropped_out-FitsIfOk p a v.now w k))
      (λ b w'. schedule_non_sync_task-FitsIfOk p b v w')

-- A task of a unit whose state fits the wire leaves such a state, what it sent included, where no
-- assertion fails.
pub run-FitsIfOk :
    (p : Platform) (a : Agent) (v : Answers) (task : Task)
    → FitsWire a
    → p.system_id < 2 ^ 48
    → v.mail < 256
    → FitsIfOk (run p a v task)
unfolding run run_fish_slot_start schedule_fish_slot_end do_prelude
    start_fish_slot_from_prelude_start
run-FitsIfOk p a v power_reserve_check w k m = run_power_reserve_check-FitsIfOk p a v w k
run-FitsIfOk p a v start_sync_period_maintain w k m = (run_start-FitsIfOk p a v w k).1
run-FitsIfOk p a v prelude_w_sync w k m = (run_start-FitsIfOk p a v w k).2
run-FitsIfOk p a v prelude_w_fish w k m = ground arith
run-FitsIfOk p a v start_sync_slot_after_prelude w k m = (run_start-FitsIfOk p a v w k).0
run-FitsIfOk p a v start_sync_slot_without_scheduled_prelude w k m =
    (run_start-FitsIfOk p a v w k).0
run-FitsIfOk p a v send_sync_task w k m = run_send_sync-FitsIfOk p a v w m
run-FitsIfOk p a v end_sync_slot_listen w k m = run_end_listen-FitsIfOk p a v w k
run-FitsIfOk p a v end_sync_slot_send w k m =
    ground (arith, schedule_non_sync_task-FitsIfOk p a v w)
run-FitsIfOk p a v fish_slot_start w k m = ground arith
run-FitsIfOk p a v fish_slot_end w k m = run_fish_slot_end-FitsIfOk p a v w k
run-FitsIfOk p a v merger_start_and_end w k m = run_merger_start_and_end-FitsIfOk p a v w
run-FitsIfOk p a v provision_start w k m = (run_provision-FitsIfOk p a v w).0
run-FitsIfOk p a v provision_end w k m = (run_provision-FitsIfOk p a v w).1
