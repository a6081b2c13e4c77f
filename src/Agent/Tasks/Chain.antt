-- ===== src/Agent/Tasks/Chain.antt =====
-- How long the tasks of one sync period go on before the next sync slot. Code: src/task,
-- src/schedule/syncSchedule.cpp, src/provisioning/provisionTask.cpp.

use sleep_sync_agent.Agent.{
  Agent, Platform, Task, end_sync_slot_listen, end_sync_slot_send, fish_slot_end, fish_slot_start,
  merger_start_and_end, power_reserve_check, prelude_w_fish, prelude_w_sync, provision_end,
  provision_start, send_sync_task, start_sync_period_maintain, start_sync_slot_after_prelude,
  start_sync_slot_without_scheduled_prelude, sync_and_provision,
}
use sleep_sync_agent.Agent.SyncSchedule.{schedule_provision_end}
use sleep_sync_agent.Agent.SyncSlot.{Answers}
use sleep_sync_agent.Agent.Tasks.{run}
use sleep_sync_agent.Agent.Tasks.Graph.{may_follow, run-may_follow}
use sleep_sync_agent.Agent.Tasks.OneNext.{next_task}
use sleep_sync_agent.Base.{
  Bool, List, [], arith, false, length, not, ok, some, true, ℕ, ◌&&◌, ◌<◌, ◌∷◌, ◌≡◌, ◌≢◌, ◌≤◌,
}

-- The tasks that run one after the other, the first not counted. Between two of them the unit may
-- have changed in any way, by messages or by its app; after a provisioning that was started, the
-- provisioner's callback schedules the next task.
pub data Chain (p : Platform) : Task → List Task → Type 0 where
  last : {task : Task} → Chain p task []
  followed :
      {task after : Task} {tasks : List Task} (a b : Agent) (v : Answers)
      → (task ≡ provision_start → v.is_provisioner_started ≡ false)
      → (a.mode ≡ sync_and_provision → p.softdevice_present ≡ true)
      → run p a v task ≡ ok b
      → next_task b ≡ some after
      → Chain p after tasks
      → Chain p task (after ∷ tasks)
  provisioned :
      {task after : Task} {tasks : List Task} (a b c : Agent) (v : Answers)
      → task ≡ provision_start
      → v.is_provisioner_started ≡ true
      → run p a v task ≡ ok b
      → next_task (schedule_provision_end c) ≡ some after
      → Chain p after tasks
      → Chain p task (after ∷ tasks)

-- The tasks with which a sync slot or a period in the mode to maintain starts.
abbrev pub is_start : Task → Bool
is_start start_sync_period_maintain = true
is_start start_sync_slot_after_prelude = true
is_start start_sync_slot_without_scheduled_prelude = true
is_start _ = false

abbrev pub none_starts : List Task → Bool
none_starts [] = true
none_starts (task ∷ tasks) = not (is_start task) && none_starts tasks

-- How many tasks may still run before the next start, once the loop has begun.
abbrev rank : Task → ℕ
rank power_reserve_check = 0
rank start_sync_period_maintain = 1
rank prelude_w_sync = 0
rank prelude_w_fish = 3
rank start_sync_slot_after_prelude = 6
rank start_sync_slot_without_scheduled_prelude = 6
rank send_sync_task = 5
rank end_sync_slot_listen = 4
rank end_sync_slot_send = 4
rank fish_slot_start = 2
rank fish_slot_end = 1
rank merger_start_and_end = 1
rank provision_start = 2
rank provision_end = 1

may_follow-rank :
    (task after : Task)
    → may_follow task after ≡ true
    → is_start after ≡ false
    → task ≢ power_reserve_check
    → (rank after < rank task) × (after ≢ power_reserve_check)
may_follow-rank task after h n w = ground arith

Chain-rank :
    (p : Platform) (task : Task) (tasks : List Task)
    → Chain p task tasks
    → task ≢ power_reserve_check
    → none_starts tasks ≡ true
    → length tasks ≤ rank task
unfolding schedule_provision_end
Chain-rank p task [] here w n = omega arith
Chain-rank p task (after ∷ tasks) (followed a b v q s e f c) w n =
    ground
      (arith, run-may_follow p a v task q s, may_follow-rank task after, Chain-rank p after tasks c)
Chain-rank p task (after ∷ tasks) (provisioned a b c v s r e f d) w n =
    ground (arith, Chain-rank p after tasks d)

-- Of tasks that follow one another without a failed assertion, from any but the check of the power
-- reserve before the first period, at most six follow the first where none of them starts a sync
-- slot or a period in the mode to maintain, whatever happens to the unit between them. After a
-- provisioning that was started, the task that follows is the one that the provisioner's callback
-- schedules; a build without a softdevice is not in the mode that provisions.
pub Chain-short :
    (p : Platform) (task : Task) (tasks : List Task)
    → Chain p task tasks
    → task ≢ power_reserve_check
    → none_starts tasks ≡ true
    → length tasks ≤ 6
Chain-short p task tasks c w n = ground (arith, Chain-rank p task tasks c w n)
