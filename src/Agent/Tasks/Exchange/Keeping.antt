-- ===== src/Agent/Tasks/Exchange/Keeping.antt =====
-- What the tasks of a unit that only syncs leave alone. Code: src/task/task.cpp,
-- src/schedule/syncSchedule.cpp, src/slots/sync/syncSlot.cpp.

use sleep_sync_agent.Agent.{Agent, Platform, prelude_w_sync, sync_only}
use sleep_sync_agent.Agent.Modes.{check_power_and_try_mode_transitions, manage_fish_power}
use sleep_sync_agent.Agent.Reversion.{check_master_dropped_out}
use sleep_sync_agent.Agent.SyncSchedule.{
  do_prelude, now_til_prelude_w_sync, radio_prelude_task_w_sync, should_undo_after_syncing,
  start_sync_slot_from_prelude_start, sync_slot_after_sync_slot, try_undo_after_syncing,
}
use sleep_sync_agent.Agent.SyncSlot.{Answers, bookkeeping_at_prelude_to_sync_slot, end_listen}
use sleep_sync_agent.Agent.Tasks.{
  dispatch_mode, pre_fishing_of_agent, run, run_prelude_w_sync, schedule_non_sync_task,
}
use sleep_sync_agent.Agent.Tasks.Syncing.{is_power_to_sync_only}
use sleep_sync_agent.Base.{Checked, Succeeds, arith, failed, ok, true, ℕ, ◌<◌, ◌≡◌}
use sleep_sync_agent.Clique.DropoutMonitor.{is_dropout}
use sleep_sync_agent.Fishing.Manager.{pre_fishing}
use sleep_sync_agent.Params.{max_missing_syncs_per_dropout}

-- The clique and what was sent are as they were.
abbrev pub KeepsIfOk : Agent → Checked Agent → Type 0
KeepsIfOk a (ok b) = (b.clique_master_id ≡ a.clique_master_id) × (b.sent ≡ a.sent)
KeepsIfOk a failed = Unit {0}

pub Succeeds-KeepsIfOk :
    (P : Agent → Type 0) (a : Agent) (r : Checked Agent)
    → Succeeds P r
    → KeepsIfOk a r
    → Succeeds (λ b. P b × (b.clique_master_id ≡ a.clique_master_id) × (b.sent ≡ a.sent)) r
Succeeds-KeepsIfOk P a (ok b) h k = (h, k.0, k.1)
Succeeds-KeepsIfOk P a failed h k = absurd h

pub run_prelude-KeepsIfOk :
    (p : Platform) (a : Agent) (v : Answers)
    → a.mode ≡ sync_only
    → is_power_to_sync_only v.power ≡ true
    → KeepsIfOk a (run p a v prelude_w_sync)
unfolding run run_prelude_w_sync bookkeeping_at_prelude_to_sync_slot manage_fish_power
    check_power_and_try_mode_transitions do_prelude start_sync_slot_from_prelude_start
run_prelude-KeepsIfOk p a v m k = ground arith

pub schedule_non_sync_task-KeepsIfOk :
    (p : Platform) (a : Agent) (v : Answers)
    → a.mode ≡ sync_only
    → KeepsIfOk a (schedule_non_sync_task p a v)
unfolding schedule_non_sync_task pre_fishing_of_agent pre_fishing try_undo_after_syncing
    should_undo_after_syncing dispatch_mode sync_slot_after_sync_slot radio_prelude_task_w_sync
    now_til_prelude_w_sync
schedule_non_sync_task-KeepsIfOk p a v m = ground arith

pub end_listen-KeepsIfOk :
    (p : Platform) (a : Agent) (now : ℕ)
    → a.count_sync_slots_without_sync_msg < max_missing_syncs_per_dropout
    → KeepsIfOk a (end_listen p a now)
unfolding end_listen check_master_dropped_out is_dropout
end_listen-KeepsIfOk p a now h = ground arith
