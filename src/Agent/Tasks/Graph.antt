-- ===== src/Agent/Tasks/Graph.antt =====
-- Which task may follow which. Code: src/task, src/schedule/syncSchedule.cpp,
-- src/slots/sync/syncSlot.cpp, src/provisioning/provisionTask.cpp.

use sleep_sync_agent.Agent.{
  Agent, Platform, Task, end_sync_slot_listen, end_sync_slot_send, fish_slot_end, fish_slot_start,
  merger_start_and_end, power_reserve_check, prelude_w_fish, prelude_w_sync, provision_end,
  provision_start, send_sync_task, start_sync_period_maintain, start_sync_slot_after_prelude,
  start_sync_slot_without_scheduled_prelude, sync_and_provision,
}
use sleep_sync_agent.Agent.SyncSchedule.{
  do_prelude, fishing, omit_nonsync_slot, radio_prelude_task_w_sync, schedule_merger,
  schedule_provision_start, start_sync_slot_from_prelude_start, sync_send_task,
  sync_slot_after_fish_slot, sync_slot_after_merging, sync_slot_after_provisioning,
  sync_slot_after_sync_slot, sync_slot_end_from_listen, try_undo_after_syncing, undo_prelude,
}
use sleep_sync_agent.Agent.SyncSlot.{
  Answers, decide_kind, dispatch_sync_slot_kind, end_listen, prelude_to_sync_period,
}
use sleep_sync_agent.Agent.Tasks.{
  dispatch_mode, pre_fishing_of_agent, run, run_fish_slot_end, run_fish_slot_start,
  run_merger_start_and_end, run_power_reserve_check, run_prelude_w_sync, run_provision_start,
  run_send_sync, run_start_sync_period_maintain, run_start_sync_slot_after_prelude,
  schedule_non_sync_task, try_fish_or_merge,
}
use sleep_sync_agent.Agent.Tasks.OneNext.{bookkeeping-KeepsTasks, enact-KeepsTasks, next_task}
use sleep_sync_agent.Agent.Tasks.Prelude.{
  end_listen-keeps, pre_fishing_of_agent-keeps, try_undo_after_syncing-keeps,
}
use sleep_sync_agent.Base.{
  Bool, Checked, Option, arith, failed, false, none, ok, refl, some, sym, true, ℕ, ◌>>=◌, ◌∙◌, ◌≡◌,
}

abbrev is_after_sync_slot : Task → Bool
is_after_sync_slot prelude_w_sync = true
is_after_sync_slot prelude_w_fish = true
is_after_sync_slot fish_slot_start = true
is_after_sync_slot merger_start_and_end = true
is_after_sync_slot provision_start = true
is_after_sync_slot _ = false

abbrev is_before_sync_slot : Task → Bool
is_before_sync_slot prelude_w_sync = true
is_before_sync_slot start_sync_slot_without_scheduled_prelude = true
is_before_sync_slot _ = false

abbrev is_in_sync_slot : Task → Bool
is_in_sync_slot start_sync_period_maintain = true
is_in_sync_slot send_sync_task = true
is_in_sync_slot end_sync_slot_listen = true
is_in_sync_slot _ = false

-- The specification of the loop: a period in the mode to maintain, or a sync slot and at most one
-- slot after it, before the next sync slot.
abbrev pub may_follow : Task → Task → Bool
may_follow power_reserve_check next = elim next [
  | power_reserve_check ↦ true
  | start_sync_period_maintain ↦ true
  | _ ↦ false
]
may_follow start_sync_period_maintain next = elim next [
  | start_sync_period_maintain ↦ true
  | prelude_w_sync ↦ true
  | _ ↦ false
]
may_follow prelude_w_sync next = elim next [ start_sync_slot_after_prelude ↦ true | _ ↦ false ]
may_follow prelude_w_fish next = elim next [ fish_slot_start ↦ true | _ ↦ false ]
may_follow start_sync_slot_after_prelude next = is_in_sync_slot next
may_follow start_sync_slot_without_scheduled_prelude next = is_in_sync_slot next
may_follow send_sync_task next = elim next [ end_sync_slot_send ↦ true | _ ↦ false ]
may_follow end_sync_slot_listen next = is_after_sync_slot next
may_follow end_sync_slot_send next = is_after_sync_slot next
may_follow fish_slot_start next = elim next [ fish_slot_end ↦ true | _ ↦ false ]
may_follow fish_slot_end next = is_before_sync_slot next
may_follow merger_start_and_end next = is_before_sync_slot next
may_follow provision_start next = is_before_sync_slot next
may_follow provision_end next = is_before_sync_slot next

abbrev pub accepts : (Task → Bool) → Option Task → Bool
accepts set none = false
accepts set (some task) = set task

-- Where no assertion fails, the next task is one of the set.
abbrev pub NextIn : (Task → Bool) → Checked Agent → Type 0
NextIn set (ok b) = accepts set (next_task b) ≡ true
NextIn set failed = Unit {0}

NextIn-bind :
    (set : Task → Bool) (r : Checked Agent) (f : Agent → Checked Agent)
    → ((b : Agent) → r ≡ ok b → NextIn set (f b))
    → NextIn set (r >>= f)
NextIn-bind set (ok b) f h = h b refl
NextIn-bind set failed f h = tt

dispatch_mode-NextIn :
    (p : Platform) (a : Agent) (v : Answers)
    → (a.mode ≡ sync_and_provision → p.softdevice_present ≡ true)
    → NextIn is_after_sync_slot (dispatch_mode p a v)
unfolding dispatch_mode sync_slot_after_sync_slot radio_prelude_task_w_sync schedule_provision_start
    try_fish_or_merge omit_nonsync_slot undo_prelude schedule_merger fishing
dispatch_mode-NextIn p a v s = ground arith

schedule_non_sync_task-NextIn :
    (p : Platform) (a : Agent) (v : Answers)
    → (a.mode ≡ sync_and_provision → p.softdevice_present ≡ true)
    → NextIn is_after_sync_slot (schedule_non_sync_task p a v)
unfolding schedule_non_sync_task
schedule_non_sync_task-NextIn p a v s =
    NextIn-bind is_after_sync_slot (pre_fishing_of_agent a)
      (λ b. try_undo_after_syncing p b >>= λ c. dispatch_mode p c v)
      (λ b e.
        NextIn-bind is_after_sync_slot (try_undo_after_syncing p b) (λ c. dispatch_mode p c v)
          (λ c u.
            let mode = (try_undo_after_syncing-keeps p b c u).1 in
            let mode' = (pre_fishing_of_agent-keeps a b e).1 in
            dispatch_mode-NextIn p c v (λ m. s (sym (mode ∙ mode') ∙ m))))

dispatch_sync_slot_kind-NextIn :
    (p : Platform) (a : Agent) (v : Answers)
    → NextIn is_in_sync_slot (dispatch_sync_slot_kind p a v)
unfolding dispatch_sync_slot_kind sync_send_task sync_slot_end_from_listen
dispatch_sync_slot_kind-NextIn p a v =
    let b = record (decide_kind p a v).0 { sync_slot_kind = (decide_kind p a v).1 } in
    ground (arith, enact-KeepsTasks p (sync_send_task p b v.now) v.random_offset)

power_reserve_check-NextIn :
    (p : Platform) (a : Agent) (v : Answers)
    → NextIn (may_follow power_reserve_check) (run_power_reserve_check p a v)
unfolding run_power_reserve_check
power_reserve_check-NextIn p a v = ground arith

maintain-NextIn :
    (p : Platform) (a : Agent) (v : Answers)
    → NextIn (may_follow start_sync_period_maintain) (run_start_sync_period_maintain p a v)
unfolding run_start_sync_period_maintain radio_prelude_task_w_sync
maintain-NextIn p a v = ground arith

prelude_w_sync-NextIn :
    (p : Platform) (a : Agent) (v : Answers)
    → NextIn (may_follow prelude_w_sync) (run_prelude_w_sync p a v)
unfolding run_prelude_w_sync
prelude_w_sync-NextIn p a v =
    ground (arith, bookkeeping-KeepsTasks p (do_prelude (start_sync_slot_from_prelude_start a)) v)

slot_start-NextIn :
    (p : Platform) (a : Agent) (v : Answers)
    → NextIn is_in_sync_slot (run_start_sync_slot_after_prelude p a v)
unfolding run_start_sync_slot_after_prelude
slot_start-NextIn p a v =
    ground (arith, dispatch_sync_slot_kind-NextIn p (prelude_to_sync_period a) v)

send_sync-NextIn :
    (p : Platform) (a : Agent) (v : Answers)
    → NextIn (may_follow send_sync_task) (run_send_sync p a v)
unfolding run_send_sync
send_sync-NextIn p a v = ground arith

fish_slot_end-NextIn :
    (p : Platform) (a : Agent) (v : Answers) → NextIn is_before_sync_slot (run_fish_slot_end p a v)
unfolding run_fish_slot_end sync_slot_after_fish_slot radio_prelude_task_w_sync
fish_slot_end-NextIn p a v = ground arith

merger-NextIn :
    (p : Platform) (a : Agent) (v : Answers)
    → NextIn is_before_sync_slot (run_merger_start_and_end p a v)
unfolding run_merger_start_and_end sync_slot_after_merging radio_prelude_task_w_sync
merger-NextIn p a v = ground arith

provisioned-NextIn :
    (p : Platform) (a : Agent) (now : ℕ)
    → NextIn is_before_sync_slot (sync_slot_after_provisioning p a now)
unfolding sync_slot_after_provisioning radio_prelude_task_w_sync
provisioned-NextIn p a now = ground arith

-- Which task comes next: where no assertion fails, a task schedules one that the specification lets
-- follow it. A provisioning that was started leaves it to the provisioner's callback; a build
-- without a softdevice is not in the mode that provisions.
pub run-may_follow :
    (p : Platform) (a : Agent) (v : Answers) (task : Task)
    → (task ≡ provision_start → v.is_provisioner_started ≡ false)
    → (a.mode ≡ sync_and_provision → p.softdevice_present ≡ true)
    → NextIn (may_follow task) (run p a v task)
unfolding run run_fish_slot_start run_provision_start
run-may_follow p a v power_reserve_check q s = power_reserve_check-NextIn p a v
run-may_follow p a v start_sync_period_maintain q s = maintain-NextIn p a v
run-may_follow p a v prelude_w_sync q s = prelude_w_sync-NextIn p a v
run-may_follow p a v prelude_w_fish q s = refl
run-may_follow p a v start_sync_slot_after_prelude q s = slot_start-NextIn p a v
run-may_follow p a v start_sync_slot_without_scheduled_prelude q s = slot_start-NextIn p a v
run-may_follow p a v send_sync_task q s = send_sync-NextIn p a v
run-may_follow p a v end_sync_slot_listen q s =
    NextIn-bind is_after_sync_slot (end_listen p a v.now) (λ b. schedule_non_sync_task p b v)
      (λ b e.
        let mode = (end_listen-keeps p a b v.now e).0 in
        schedule_non_sync_task-NextIn p b v (λ m. s (sym mode ∙ m)))
run-may_follow p a v end_sync_slot_send q s = ground (arith, schedule_non_sync_task-NextIn p a v s)
run-may_follow p a v fish_slot_start q s = ground arith
run-may_follow p a v fish_slot_end q s = fish_slot_end-NextIn p a v
run-may_follow p a v merger_start_and_end q s = merger-NextIn p a v
run-may_follow p a v provision_start q s = ground (arith, provisioned-NextIn p a v.now, q refl)
run-may_follow p a v provision_end q s = provisioned-NextIn p a v.now
