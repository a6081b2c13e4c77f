-- ===== src/Agent/Tasks/Prelude.antt =====
-- Every task finds the radio prelude as it needs it. Code: src/task, src/schedule/radioPrelude.cpp,
-- src/slots/sync/syncSlot.cpp.
use native.Mathlib.Omega.{arith}
use sleep_sync_agent.Agent.{
  Agent, Platform, Task, end_sync_slot_listen, end_sync_slot_send, fish_slot_end, fish_slot_start,
  merger, merger_start_and_end, power_reserve_check, prelude_w_fish, prelude_w_sync, provision_end,
  provision_start, send_sync_task, start_sync_period_maintain, start_sync_slot_after_prelude,
  start_sync_slot_without_scheduled_prelude, sync_and_fish_merge, sync_and_provision, sync_only,
}
use sleep_sync_agent.Agent.Mastership.{assume_mastership, init_clique, update_mastership}
use sleep_sync_agent.Agent.Merging.{
  check_completion_of_merger_role, deactivate, is_merger_start_sync_period, restart_merge_policy,
  stop_merger, to_fisher_from_merger,
}
use sleep_sync_agent.Agent.Modes.{reset_to_mode_maintain}
use sleep_sync_agent.Agent.Reversion.{
  check_master_dropped_out, grab_mastership, revert_by_clique_history, revert_to_former_master,
}
use sleep_sync_agent.Agent.Roles.{to_fisher}
use sleep_sync_agent.Agent.SyncSchedule.{
  do_prelude, radio_prelude_task_w_sync, schedule_provision_start,
  start_sync_slot_from_prelude_start, sync_send_task, sync_slot_after_fish_slot,
  sync_slot_after_merging, sync_slot_after_sync_slot, sync_slot_end_from_listen,
  try_undo_after_syncing,
}
use sleep_sync_agent.Agent.SyncSlot.{
  Answers, decide_kind, dispatch_sync_slot_kind, end_listen, init_agent, prelude_to_loop,
  prelude_to_sync_period,
}
use sleep_sync_agent.Agent.Tasks.{
  dispatch_mode, pre_fishing_of_agent, run, run_fish_slot_end, run_fish_slot_start,
  run_merger_start_and_end, run_power_reserve_check, run_prelude_w_sync, run_provision_start,
  run_send_sync, run_start_sync_period_maintain, run_start_sync_slot_after_prelude,
  schedule_non_sync_task,
}
use sleep_sync_agent.Agent.Tasks.OneNext.{
  KeepsTasks, OneNext, after_provisioning-OneNext, bookkeeping-KeepsTasks, decide_kind-keeps,
  enact-KeepsTasks, needs_prelude, try_fish_or_merge-OneNext,
}
use sleep_sync_agent.Base.{Checked, failed, false, ok, refl, sym, true, ℕ, ◌>>=◌, ◌∙◌, ◌≡◌}
use sleep_sync_agent.Fishing.Manager.{restart_trolling_mode}

pub try_undo_after_syncing-keeps :
    (p : Platform) (a b : Agent)
    → try_undo_after_syncing p a ≡ ok b
    → (b.scheduled ≡ a.scheduled)
      × (b.mode ≡ a.mode)
      × (b.mode ≡ sync_only → b.is_prelude_started ≡ false)
      × (b.mode ≡ sync_and_provision → b.is_prelude_started ≡ true)
      × (b.mode ≡ sync_and_fish_merge
          → b.role ≡ merger
          → b.is_prelude_started ≡ is_merger_start_sync_period b)
unfolding try_undo_after_syncing is_merger_start_sync_period
try_undo_after_syncing-keeps p a b e = ground arith

dispatch_mode-OneNext :
    (p : Platform) (a : Agent) (v : Answers)
    → (a.mode ≡ sync_and_provision → p.softdevice_present ≡ true)
    → (a.mode ≡ sync_and_provision → a.is_prelude_started ≡ true)
    → (a.mode ≡ sync_and_fish_merge
        → a.role ≡ merger
        → a.is_prelude_started ≡ is_merger_start_sync_period a)
    → OneNext a (dispatch_mode p a v)
unfolding dispatch_mode sync_slot_after_sync_slot radio_prelude_task_w_sync schedule_provision_start
dispatch_mode-OneNext p a v s h n = ground (arith, try_fish_or_merge-OneNext p a v)

OneNext-trans :
    (a b : Agent) (r : Checked Agent) → b.scheduled ≡ a.scheduled → OneNext b r → OneNext a r
OneNext-trans a b (ok c) e h = ground arith
OneNext-trans a b failed e h = tt

OneNext-bind :
    (a : Agent) (r : Checked Agent) (f : Agent → Checked Agent)
    → ((b : Agent) → r ≡ ok b → OneNext a (f b))
    → OneNext a (r >>= f)
OneNext-bind a (ok b) f h = h b refl
OneNext-bind a failed f h = tt

after_keeping :
    (a : Agent) (r : Checked Agent) (f : Agent → Checked Agent)
    → KeepsTasks a r
    → ((b : Agent) → b.is_prelude_started ≡ a.is_prelude_started → OneNext b (f b))
    → OneNext a (r >>= f)
after_keeping a (ok b) f k h = OneNext-trans a b (f b) k.0 (h b k.1)
after_keeping a failed f k h = tt

pub pre_fishing_of_agent-keeps :
    (a b : Agent) → pre_fishing_of_agent a ≡ ok b → (b.scheduled ≡ a.scheduled) × (b.mode ≡ a.mode)
unfolding pre_fishing_of_agent
pre_fishing_of_agent-keeps a b e = ground arith

schedule_non_sync_task-OneNext :
    (p : Platform) (a : Agent) (v : Answers)
    → (a.mode ≡ sync_and_provision → p.softdevice_present ≡ true)
    → OneNext a (schedule_non_sync_task p a v)
unfolding schedule_non_sync_task
schedule_non_sync_task-OneNext p a v s =
    OneNext-bind a (pre_fishing_of_agent a)
      (λ b. try_undo_after_syncing p b >>= λ c. dispatch_mode p c v)
      (λ b e.
        OneNext-bind a (try_undo_after_syncing p b) (λ c. dispatch_mode p c v)
          (λ c u.
            let (kept, mode, off, on, near) = try_undo_after_syncing-keeps p b c u in
            let (kept', mode') = pre_fishing_of_agent-keeps a b e in
            OneNext-trans a c (dispatch_mode p c v) (kept ∙ kept')
              (dispatch_mode-OneNext p c v (λ m. s (sym (mode ∙ mode') ∙ m)) on near)))

dispatch_sync_slot_kind-OneNext :
    (p : Platform) (a : Agent) (v : Answers)
    → a.is_prelude_started ≡ true
    → OneNext a (dispatch_sync_slot_kind p a v)
unfolding dispatch_sync_slot_kind sync_send_task sync_slot_end_from_listen
dispatch_sync_slot_kind-OneNext p a v h =
    let b = record (decide_kind p a v).0 { sync_slot_kind = (decide_kind p a v).1 } in
    ground (
      arith,
      decide_kind-keeps p a v,
      enact-KeepsTasks p (sync_send_task p b v.now) v.random_offset,
    )

check_master_dropped_out-keeps_mode :
    (p : Platform) (a b : Agent) (now : ℕ)
    → check_master_dropped_out p a now ≡ ok b
    → (b.mode ≡ a.mode) × (b.scheduled ≡ a.scheduled)
unfolding check_master_dropped_out revert_by_clique_history grab_mastership revert_to_former_master
    update_mastership restart_trolling_mode
check_master_dropped_out-keeps_mode p a b now e = ground arith

pub end_listen-keeps :
    (p : Platform) (a b : Agent) (now : ℕ)
    → end_listen p a now ≡ ok b
    → (b.mode ≡ a.mode) × (b.scheduled ≡ a.scheduled)
unfolding end_listen
end_listen-keeps p a b now e = ground (arith, check_master_dropped_out-keeps_mode p a b now)

maintain-OneNext :
    (p : Platform) (a : Agent) (v : Answers)
    → a.is_prelude_started ≡ false
    → OneNext a (run_start_sync_period_maintain p a v)
unfolding run_start_sync_period_maintain radio_prelude_task_w_sync
maintain-OneNext p a v h = ground (arith, bookkeeping-KeepsTasks p a v)

after_prelude-OneNext :
    (p : Platform) (a : Agent) (v : Answers)
    → a.is_prelude_started ≡ true
    → OneNext a (run_start_sync_slot_after_prelude p a v)
unfolding run_start_sync_slot_after_prelude
after_prelude-OneNext p a v h =
    ground (arith, dispatch_sync_slot_kind-OneNext p (prelude_to_sync_period a) v)

prelude_w_sync-OneNext :
    (p : Platform) (a : Agent) (v : Answers) → OneNext a (run_prelude_w_sync p a v)
unfolding run_prelude_w_sync
prelude_w_sync-OneNext p a v =
    ground (arith, bookkeeping-KeepsTasks p (do_prelude (start_sync_slot_from_prelude_start a)) v)

send_sync-OneNext :
    (p : Platform) (a : Agent) (v : Answers)
    → a.is_prelude_started ≡ true
    → OneNext a (run_send_sync p a v)
unfolding run_send_sync
send_sync-OneNext p a v h = ground arith

fish_slot_end-OneNext :
    (p : Platform) (a : Agent) (v : Answers) → OneNext a (run_fish_slot_end p a v)
unfolding run_fish_slot_end sync_slot_after_fish_slot radio_prelude_task_w_sync assume_mastership
fish_slot_end-OneNext p a v = ground arith

merger-OneNext :
    (p : Platform) (a : Agent) (v : Answers)
    → a.is_prelude_started ≡ true
    → OneNext a (run_merger_start_and_end p a v)
unfolding run_merger_start_and_end check_completion_of_merger_role stop_merger restart_merge_policy
    to_fisher_from_merger deactivate to_fisher sync_slot_after_merging radio_prelude_task_w_sync
merger-OneNext p a v h = ground arith

power_reserve_check-OneNext :
    (p : Platform) (a : Agent) (v : Answers)
    → a.is_prelude_started ≡ false
    → OneNext a (run_power_reserve_check p a v)
unfolding run_power_reserve_check init_agent prelude_to_loop init_clique reset_to_mode_maintain
power_reserve_check-OneNext p a v h = ground arith

-- The chain of tasks: a task that starts with the radio prelude as it needs it schedules exactly one
-- next task and leaves the prelude as that one needs it, or an assertion fails. Only a merger, which
-- needs it too, is left the prelude just if its slot is near the start of the period. A provisioning
-- that was started leaves the next task to the provisioner's callback and is left aside; a build
-- without a softdevice is not in the mode that provisions.
pub run-OneNext :
    (p : Platform) (a : Agent) (v : Answers) (task : Task)
    → needs_prelude task ≡ a.is_prelude_started
    → (task ≡ provision_start → v.is_provisioner_started ≡ false)
    → (a.mode ≡ sync_and_provision → p.softdevice_present ≡ true)
    → OneNext a (run p a v task)
unfolding run run_provision_start run_fish_slot_start
run-OneNext p a v power_reserve_check h q s = power_reserve_check-OneNext p a v (sym h)
run-OneNext p a v start_sync_period_maintain h q s = maintain-OneNext p a v (sym h)
run-OneNext p a v prelude_w_sync h q s = prelude_w_sync-OneNext p a v
run-OneNext p a v prelude_w_fish h q s = ground arith
run-OneNext p a v start_sync_slot_after_prelude h q s = after_prelude-OneNext p a v (sym h)
run-OneNext p a v start_sync_slot_without_scheduled_prelude h q s =
    after_prelude-OneNext p a v (sym h)
run-OneNext p a v send_sync_task h q s = send_sync-OneNext p a v (sym h)
run-OneNext p a v end_sync_slot_listen h q s =
    OneNext-bind a (end_listen p a v.now) (λ b. schedule_non_sync_task p b v)
      (λ b e.
        let (mode, kept) = end_listen-keeps p a b v.now e in
        OneNext-trans a b (schedule_non_sync_task p b v) kept
          (schedule_non_sync_task-OneNext p b v (λ m. s (sym mode ∙ m))))
run-OneNext p a v end_sync_slot_send h q s = ground (arith, schedule_non_sync_task-OneNext p a v s)
run-OneNext p a v fish_slot_start h q s = ground arith
run-OneNext p a v fish_slot_end h q s = fish_slot_end-OneNext p a v
run-OneNext p a v merger_start_and_end h q s = merger-OneNext p a v (sym h)
run-OneNext p a v provision_start h q s =
    ground (arith, after_provisioning-OneNext p a v.now (sym h), q refl)
run-OneNext p a v provision_end h q s = after_provisioning-OneNext p a v.now (sym h)
