-- ===== src/Agent/Tasks/OneNext.antt =====
-- The chain of tasks and the radio prelude. Code: src/task, src/schedule/syncSchedule.cpp,
-- src/schedule/radioPrelude.cpp, src/slots/sync/syncSlot.cpp.
use native.Mathlib.Omega.{arith}
use sleep_sync_agent.Agent.{
  Agent, Platform, Task, merger, merger_start_and_end, power_reserve_check, prelude_w_fish,
  prelude_w_sync, start_sync_period_maintain,
}
use sleep_sync_agent.Agent.Control.{check_done_and_enact, enact, should_send_control_sync}
use sleep_sync_agent.Agent.Mastership.{should_transmit_sync, update_mastership}
use sleep_sync_agent.Agent.Merging.{
  deactivate, is_merger_start_sync_period, to_fisher_from_no_fishing, to_no_fishing_from_other,
}
use sleep_sync_agent.Agent.Modes.{check_power_and_try_mode_transitions, should_provision}
use sleep_sync_agent.Agent.Reversion.{
  check_master_dropped_out, grab_mastership, revert_by_clique_history, revert_to_former_master,
  scatter_sync,
}
use sleep_sync_agent.Agent.Roles.{to_fisher, to_no_fishing}
use sleep_sync_agent.Agent.SyncSchedule.{
  fishing, omit_nonsync_slot, radio_prelude_task_w_sync, schedule_merger, sync_slot_after_fish_slot,
  sync_slot_after_provisioning, sync_slot_after_sync_slot, undo_prelude,
}
use sleep_sync_agent.Agent.SyncSlot.{Answers, bookkeeping_at_prelude_to_sync_slot, decide_kind}
use sleep_sync_agent.Agent.Tasks.{try_fish_or_merge}
use sleep_sync_agent.Base.{
  Bool, Checked, List, Option, [], failed, false, none, ok, some, true, ℕ, ◌∷◌, ◌≡◌, ◌≢◌, ◌⊎◌,
}
use sleep_sync_agent.Fishing.FishSchedule.{set_start_and_end_times}
use sleep_sync_agent.Fishing.Manager.{restart_trolling_mode}

abbrev pub rest : List (Task × ℕ) → Option (List (Task × ℕ))
rest [] = none
rest (x ∷ xs) = some xs

abbrev pub next_task : Agent → Option Task
next_task a = elim a.scheduled [ [] ↦ none | (task, delta) ∷ xs ↦ some task ]

-- The tasks that start with the high-frequency clock running.
abbrev pub needs_prelude : Task → Bool
needs_prelude power_reserve_check = false
needs_prelude start_sync_period_maintain = false
needs_prelude prelude_w_sync = false
needs_prelude prelude_w_fish = false
needs_prelude _ = true

abbrev pub ap_needs : Option Task → Option Bool
ap_needs none = none
ap_needs (some task) = some (needs_prelude task)

-- Exactly one more task is scheduled, and the prelude is started just if it needs it; a merger
-- finds it started just if its slot is near the start of the period.
abbrev pub OneNext : Agent → Checked Agent → Type 0
OneNext a (ok b) =
    (rest b.scheduled ≡ some a.scheduled)
    × ((next_task b ≡ some merger_start_and_end)
          × (b.is_prelude_started ≡ is_merger_start_sync_period b)
        ⊎ (next_task b ≢ some merger_start_and_end)
          × (ap_needs (next_task b) ≡ some b.is_prelude_started))
OneNext a failed = Unit {0}

abbrev pub KeepsTasks : Agent → Checked Agent → Type 0
KeepsTasks a (ok b) = (b.scheduled ≡ a.scheduled) × (b.is_prelude_started ≡ a.is_prelude_started)
KeepsTasks a failed = Unit {0}

pub check_master_dropped_out-KeepsTasks :
    (p : Platform) (a : Agent) (now : ℕ) → KeepsTasks a (check_master_dropped_out p a now)
unfolding check_master_dropped_out revert_by_clique_history grab_mastership revert_to_former_master
    update_mastership restart_trolling_mode
check_master_dropped_out-KeepsTasks p a now = ground arith

pub enact-KeepsTasks :
    (p : Platform) (a : Agent) (random_offset : ℕ)
    → KeepsTasks a (check_done_and_enact p a random_offset)
unfolding check_done_and_enact enact scatter_sync grab_mastership restart_trolling_mode
enact-KeepsTasks p a random_offset = ground arith

pub bookkeeping-KeepsTasks :
    (p : Platform) (a : Agent) (v : Answers)
    → KeepsTasks a (bookkeeping_at_prelude_to_sync_slot p a v)
unfolding bookkeeping_at_prelude_to_sync_slot check_power_and_try_mode_transitions
    to_no_fishing_from_other deactivate to_no_fishing to_fisher should_provision
    to_fisher_from_no_fishing
bookkeeping-KeepsTasks p a v = ground arith

pub decide_kind-keeps :
    (p : Platform) (a : Agent) (v : Answers)
    → ((decide_kind p a v).0.scheduled ≡ a.scheduled)
      × ((decide_kind p a v).0.is_prelude_started ≡ a.is_prelude_started)
unfolding decide_kind should_transmit_sync should_send_control_sync
decide_kind-keeps p a v = ground arith

-- Scheduling the sync slot after a slot that may have left the prelude on.
pub after_fish-OneNext :
    (p : Platform) (a : Agent) (now : ℕ)
    → a.is_prelude_started ≡ true
    → OneNext a (sync_slot_after_fish_slot p a now)
unfolding sync_slot_after_fish_slot radio_prelude_task_w_sync
after_fish-OneNext p a now h = ground arith

pub after_provisioning-OneNext :
    (p : Platform) (a : Agent) (now : ℕ)
    → a.is_prelude_started ≡ true
    → OneNext a (sync_slot_after_provisioning p a now)
unfolding sync_slot_after_provisioning radio_prelude_task_w_sync
after_provisioning-OneNext p a now h = ground arith

pub fishing-OneNext : (p : Platform) (a : Agent) (now : ℕ) → OneNext a (fishing p a now)
unfolding fishing
fishing-OneNext p a now = ground arith

pub omit_nonsync_slot-OneNext :
    (p : Platform) (a : Agent) (now : ℕ) → OneNext a (omit_nonsync_slot p a now)
unfolding omit_nonsync_slot undo_prelude radio_prelude_task_w_sync sync_slot_after_sync_slot
omit_nonsync_slot-OneNext p a now = ground arith

pub schedule_merger-OneNext :
    (p : Platform) (a : Agent) (now : ℕ)
    → a.is_prelude_started ≡ is_merger_start_sync_period a
    → OneNext a (schedule_merger p a now)
unfolding schedule_merger is_merger_start_sync_period
schedule_merger-OneNext p a now h = ground arith

pub try_fish_or_merge-OneNext :
    (p : Platform) (a : Agent) (v : Answers)
    → (a.role ≡ merger → a.is_prelude_started ≡ is_merger_start_sync_period a)
    → OneNext a (try_fish_or_merge p a v)
unfolding try_fish_or_merge
try_fish_or_merge-OneNext p a v h =
    let (fished, times) = set_start_and_end_times a.fishing a.schedule a.fish_times in
    ground (
      arith,
      omit_nonsync_slot-OneNext p a v.now,
      schedule_merger-OneNext p a v.now,
      fishing-OneNext p (record a { fishing = fished; fish_times = times }) v.now,
    )
