-- ===== src/Agent/Tasks/Sound/Running.antt =====
-- No task leaves a unit that is not sound. Code: src/task/task.cpp, fishTask.cpp,
-- mergerTask.cpp, checkPowerReserve.cpp, src/provisioning/provisionTask.cpp.

use sleep_sync_agent.Agent.{
  Agent, Platform, Task, end_sync_slot_listen, end_sync_slot_send, fish_slot_end, fish_slot_start,
  merger_start_and_end, power_reserve_check, prelude_w_fish, prelude_w_sync, provision_end,
  provision_start, send_sync_task, start_sync_period_maintain, start_sync_slot_after_prelude,
  start_sync_slot_without_scheduled_prelude,
}
use sleep_sync_agent.Agent.Mastership.{assume_mastership, set_self_mastership}
use sleep_sync_agent.Agent.Merging.{
  check_completion_of_merger_role, deactivate, make_merge_msg, restart_merge_policy, stop_merger,
  to_fisher_from_merger,
}
use sleep_sync_agent.Agent.Modes.{reset_work_state}
use sleep_sync_agent.Agent.Receiver.Steps.{IsSound, SoundIfOk}
use sleep_sync_agent.Agent.Roles.{to_fisher}
use sleep_sync_agent.Agent.Sender.{send_merge_sync}
use sleep_sync_agent.Agent.SyncSchedule.{
  do_prelude, maintain_sync_period, now_til_prelude_w_sync, radio_prelude_task_w_sync,
  schedule_fish_slot_end, start_fish_slot_from_prelude_start, start_sync_slot_from_prelude_start,
  start_sync_slot_with_prelude_done, sync_slot_after_fish_slot, sync_slot_after_merging,
  sync_slot_after_provisioning, sync_slot_end_from_send, undo_prelude,
}
use sleep_sync_agent.Agent.SyncSlot.{Answers, end_listen, prelude_to_sync_period}
use sleep_sync_agent.Agent.Tasks.{
  end_deep_fishing, run, run_fish_slot_end, run_fish_slot_start, run_merger_start_and_end,
  run_prelude_w_sync, run_provision_start, run_send_sync, run_start_sync_period_maintain,
  run_start_sync_slot_after_prelude, schedule_non_sync_task, stop_merger_if,
}
use sleep_sync_agent.Agent.Tasks.Sound.{
  bookkeeping-SoundIfOk, dispatch_sync_slot_kind-SoundIfOk, end_listen-SoundIfOk,
  schedule_non_sync_task-SoundIfOk,
}
use sleep_sync_agent.Base.{Checked, arith, failed, ok, refl, ℕ, ◌>>=◌, ◌≢◌}
use sleep_sync_agent.Fishing.Manager.{check_fishing_done, switch_to_trolling}

pub SoundIfOk-bind :
    (p : Platform) (r : Checked Agent) (f : Agent → Checked Agent)
    → SoundIfOk p r
    → ((b : Agent) → IsSound p b → SoundIfOk p (f b))
    → SoundIfOk p (r >>= f)
SoundIfOk-bind p (ok b) f v h = h b v
SoundIfOk-bind p failed f v h = v

before_sync_slot-SoundIfOk :
    (p : Platform) (a : Agent) (now : ℕ)
    → IsSound p a
    → SoundIfOk p (sync_slot_after_fish_slot p a now)
      × SoundIfOk p (sync_slot_after_merging p a now)
      × SoundIfOk p (sync_slot_after_provisioning p a now)
unfolding sync_slot_after_fish_slot sync_slot_after_merging sync_slot_after_provisioning
    undo_prelude radio_prelude_task_w_sync start_sync_slot_with_prelude_done now_til_prelude_w_sync
before_sync_slot-SoundIfOk p a now w = ground arith

run_start-SoundIfOk :
    (p : Platform) (a : Agent) (v : Answers)
    → IsSound p a
    → SoundIfOk p (run_start_sync_slot_after_prelude p a v)
      × SoundIfOk p (run_start_sync_period_maintain p a v)
      × SoundIfOk p (run_prelude_w_sync p a v)
unfolding run_start_sync_slot_after_prelude run_start_sync_period_maintain run_prelude_w_sync
    prelude_to_sync_period reset_work_state maintain_sync_period undo_prelude
    radio_prelude_task_w_sync now_til_prelude_w_sync do_prelude start_sync_slot_from_prelude_start
run_start-SoundIfOk p a v w =
    let b = prelude_to_sync_period a in
    let c = do_prelude (start_sync_slot_from_prelude_start a) in
    ground (
      arith,
      bookkeeping-SoundIfOk p a v w,
      λ (w' : IsSound p b). dispatch_sync_slot_kind-SoundIfOk p b v w',
      λ (w' : IsSound p c). bookkeeping-SoundIfOk p c v w',
    )

run_fish_slot_end-SoundIfOk :
    (p : Platform) (a : Agent) (v : Answers) → IsSound p a → SoundIfOk p (run_fish_slot_end p a v)
unfolding run_fish_slot_end end_deep_fishing assume_mastership set_self_mastership
    check_fishing_done switch_to_trolling sync_slot_after_fish_slot undo_prelude
    radio_prelude_task_w_sync start_sync_slot_with_prelude_done now_til_prelude_w_sync
run_fish_slot_end-SoundIfOk p a v w = ground arith

run_merger_start_and_end-SoundIfOk :
    (p : Platform) (a : Agent) (v : Answers)
    → IsSound p a
    → SoundIfOk p (run_merger_start_and_end p a v)
unfolding run_merger_start_and_end send_merge_sync make_merge_msg stop_merger_if
    check_completion_of_merger_role stop_merger restart_merge_policy to_fisher_from_merger
    deactivate to_fisher sync_slot_after_merging undo_prelude radio_prelude_task_w_sync
    start_sync_slot_with_prelude_done now_til_prelude_w_sync
run_merger_start_and_end-SoundIfOk p a v w = ground arith

run_provision-SoundIfOk :
    (p : Platform) (a : Agent) (v : Answers)
    → IsSound p a
    → SoundIfOk p (run_provision_start p a v) × SoundIfOk p (sync_slot_after_provisioning p a v.now)
unfolding run_provision_start
run_provision-SoundIfOk p a v w = ground (arith, (before_sync_slot-SoundIfOk p a v.now w).2)

-- The sync slot's listening is over: what follows is scheduled.
run_end_listen-SoundIfOk :
    (p : Platform) (a : Agent) (v : Answers)
    → IsSound p a
    → SoundIfOk p (run p a v end_sync_slot_listen)
unfolding run
run_end_listen-SoundIfOk p a v w =
    SoundIfOk-bind p (end_listen p a v.now) (λ b. schedule_non_sync_task p b v)
      (end_listen-SoundIfOk p a v.now w) (λ b w'. schedule_non_sync_task-SoundIfOk p b v w')

run_send_sync-SoundIfOk :
    (p : Platform) (a : Agent) (v : Answers) → IsSound p a → SoundIfOk p (run_send_sync p a v)
unfolding run_send_sync sync_slot_end_from_send
run_send_sync-SoundIfOk p a v w = ground arith

-- A task of a sound unit leaves a sound unit, where no assertion fails; the task that waits for
-- power before the loop is left out, since it sets up the unit anew.
pub run-SoundIfOk :
    (p : Platform) (a : Agent) (v : Answers) (task : Task)
    → IsSound p a
    → task ≢ power_reserve_check
    → SoundIfOk p (run p a v task)
unfolding run run_fish_slot_start schedule_fish_slot_end do_prelude
    start_fish_slot_from_prelude_start
run-SoundIfOk p a v power_reserve_check w k = absurd (k refl)
run-SoundIfOk p a v start_sync_period_maintain w k = (run_start-SoundIfOk p a v w).1
run-SoundIfOk p a v prelude_w_sync w k = (run_start-SoundIfOk p a v w).2
run-SoundIfOk p a v prelude_w_fish w k = ground arith
run-SoundIfOk p a v start_sync_slot_after_prelude w k = (run_start-SoundIfOk p a v w).0
run-SoundIfOk p a v start_sync_slot_without_scheduled_prelude w k = (run_start-SoundIfOk p a v w).0
run-SoundIfOk p a v send_sync_task w k = run_send_sync-SoundIfOk p a v w
run-SoundIfOk p a v end_sync_slot_listen w k = run_end_listen-SoundIfOk p a v w
run-SoundIfOk p a v end_sync_slot_send w k =
    ground (arith, schedule_non_sync_task-SoundIfOk p a v w)
run-SoundIfOk p a v fish_slot_start w k = ground arith
run-SoundIfOk p a v fish_slot_end w k = run_fish_slot_end-SoundIfOk p a v w
run-SoundIfOk p a v merger_start_and_end w k = run_merger_start_and_end-SoundIfOk p a v w
run-SoundIfOk p a v provision_start w k = (run_provision-SoundIfOk p a v w).0
run-SoundIfOk p a v provision_end w k = (run_provision-SoundIfOk p a v w).1
