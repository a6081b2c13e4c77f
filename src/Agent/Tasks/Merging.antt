-- ===== src/Agent/Tasks/Merging.antt =====
-- The task of a merger. Code: src/task/mergerTask.cpp, src/slots/merge/mergePolicy.cpp,
-- src/schedule/syncSchedule.cpp, src/slots/merge/mergeSchedule.cpp.
use native.Mathlib.Omega.{arith}
use sleep_sync_agent.Agent.{
  Agent, Platform, end_sync_slot_send, fisher, merger, merger_start_and_end,
  start_sync_slot_without_scheduled_prelude, sync_and_fish_merge,
}
use sleep_sync_agent.Agent.Merging.{
  check_completion_of_merger_role, deactivate, delta_merge_slot_end_to_sync_point,
  is_merger_end_sync_period, is_merger_start_sync_period, restart_merge_policy, stop_merger,
  to_fisher_from_merger,
}
use sleep_sync_agent.Agent.Roles.{to_fisher}
use sleep_sync_agent.Agent.SyncSchedule.{
  radio_prelude_task_w_sync, schedule_merger, should_undo_after_syncing,
  start_sync_slot_with_prelude_done, sync_slot_after_merging, try_undo_after_syncing, undo_prelude,
}
use sleep_sync_agent.Agent.SyncSlot.{Answers}
use sleep_sync_agent.Agent.Tasks.{
  dispatch_mode, pre_fishing_of_agent, run, run_merger_start_and_end,
  run_start_sync_slot_after_prelude, schedule_non_sync_task, try_fish_or_merge,
}
use sleep_sync_agent.Agent.Tasks.OneNext.{next_task}
use sleep_sync_agent.Base.{failed, false, ok, some, true, ◌+◌, ◌<◌, ◌≡◌, ◌≤◌, ◌⊎◌}
use sleep_sync_agent.Params.{count_syncs_per_merger, three_slot_duration}

-- A merger that has not sent its last message counts it and goes on; with the last one it is a
-- fisher again, with no merger and nothing counted.
pub run_merger-counts :
    (p : Platform) (a b : Agent) (v : Answers)
    → a.role ≡ merger
    → run p a v merger_start_and_end ≡ ok b
    → (a.count_sent_merge_syncs ≤ count_syncs_per_merger)
      × ((a.count_sent_merge_syncs < count_syncs_per_merger)
            × (b.role ≡ merger)
            × (b.count_sent_merge_syncs ≡ a.count_sent_merge_syncs + 1)
          ⊎ (a.count_sent_merge_syncs ≡ count_syncs_per_merger)
            × (b.role ≡ fisher)
            × (b.clique_merger.is_merging ≡ false)
            × (b.count_sent_merge_syncs ≡ 0))
unfolding run run_merger_start_and_end check_completion_of_merger_role stop_merger
    restart_merge_policy to_fisher_from_merger deactivate to_fisher sync_slot_after_merging
    radio_prelude_task_w_sync start_sync_slot_with_prelude_done undo_prelude
run_merger-counts p a b v r e = ground arith

-- A merge slot near the end of the period keeps the prelude for the sync slot that follows; but
-- where it was not started for the merge, the sync slot is scheduled without one, and its
-- assertion fails.
pub late_merger-failed :
    (p : Platform) (a b : Agent) (v w : Answers)
    → a.is_prelude_started ≡ false
    → is_merger_end_sync_period p a ≡ true
    → run p a v merger_start_and_end ≡ ok b
    → (next_task b ≡ some start_sync_slot_without_scheduled_prelude)
      × (run p b w start_sync_slot_without_scheduled_prelude ≡ failed)
unfolding run run_merger_start_and_end check_completion_of_merger_role stop_merger
    restart_merge_policy to_fisher_from_merger deactivate to_fisher sync_slot_after_merging
    start_sync_slot_with_prelude_done run_start_sync_slot_after_prelude is_merger_end_sync_period
    delta_merge_slot_end_to_sync_point
late_merger-failed p a b v w n l e = ground arith

-- After the sync slot of a merger whose merge slot is not near it, the prelude is off, and the
-- merge is scheduled without one.
pub merger_scheduled_without_prelude :
    (p : Platform) (a b : Agent) (v : Answers)
    → a.mode ≡ sync_and_fish_merge
    → a.role ≡ merger
    → v.merge_toss ≡ true
    → three_slot_duration ≤ a.clique_merger.period_time_to_merge_slot_start
    → run p a v end_sync_slot_send ≡ ok b
    → (next_task b ≡ some merger_start_and_end) × (b.is_prelude_started ≡ false)
unfolding run schedule_non_sync_task pre_fishing_of_agent try_undo_after_syncing
    should_undo_after_syncing is_merger_start_sync_period dispatch_mode try_fish_or_merge
    schedule_merger
merger_scheduled_without_prelude p a b v m r t far e = ground arith
