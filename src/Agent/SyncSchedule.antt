-- ===== src/Agent/SyncSchedule.antt =====
-- src/schedule/syncSchedule.cpp, sleepDuration.cpp, radioPrelude.cpp and
-- src/slots/syncing/syncSlotSchedule.cpp: which task comes next, when, and whether the
-- high-frequency clock, the radio prelude, is running until then. `now` is the reading of the clock.

use sleep_sync_agent.Agent.{
  Agent, Platform, Task, end_sync_slot_listen, end_sync_slot_send, fish_slot_end, fish_slot_start,
  fisher, maintain, merger, merger_start_and_end, no_fishing, power_reserve_check, prelude_w_fish,
  prelude_w_sync, provision_end, provision_start, send_sync_task, start_sync_period_maintain,
  start_sync_slot_after_prelude, start_sync_slot_without_scheduled_prelude, sync_and_fish_merge,
  sync_and_provision, sync_only,
}
use sleep_sync_agent.Agent.Merging.{
  delta_to_this_merge_start, is_merger_end_sync_period, is_merger_start_sync_period,
}
use sleep_sync_agent.Base.{
  Bool, Checked, check, failed, false, if◌then◌else◌, not, ok, true, u64, ℕ, ◌+◌, ◌>>=◌, ◌>>◌, ◌∷◌,
}
use sleep_sync_agent.Fishing.FishSchedule.{delta_to_fish_session_start}
use sleep_sync_agent.Fishing.Manager.{
  get_fish_session_duration_ticks, is_fish_slot_end_sync_period, is_fish_slot_start_sync_period,
}
use sleep_sync_agent.Params.{
  delta_sync_slot_start_to_sync_slot_xmit, timeout_waiting_for_sync_power_sleeper,
  virtual_slot_duration,
}
use sleep_sync_agent.Schedule.{delta_now_to_next_sync_point}

-- TaskTimer::schedule
schedule_task : Agent → Task → ℕ → Agent
schedule_task a task delta = record a { scheduled = (task, delta) ∷ a.scheduled }

-- RadioPrelude
unfoldable pub do_prelude : Agent → Agent
do_prelude a = record a { is_prelude_started = true }

unfoldable pub undo_prelude : Agent → Agent
undo_prelude a = record a { is_prelude_started = false }

unfoldable pub should_undo_after_syncing : Platform → Agent → Checked Bool
should_undo_after_syncing p a = do
  check a.is_prelude_started
  elim a.mode [
    | maintain ↦ failed
    | sync_and_fish_merge ↦ elim a.role [
      | fisher ↦ ok (not (is_fish_slot_start_sync_period a.fishing))
      | merger ↦ ok (not (is_merger_start_sync_period a))
      | no_fishing ↦ ok true
    ]
    | sync_only ↦ ok true
    | sync_and_provision ↦ ok false
  ]

undo_if : Agent → Bool → Agent
undo_if a should = if should then undo_prelude a else a

unfoldable pub try_undo_after_syncing : Platform → Agent → Checked Agent
unfolding undo_if undo_prelude should_undo_after_syncing
try_undo_after_syncing p a = do should ← should_undo_after_syncing p a; ok (undo_if a should)

-- SleepDuration
abbrev pub prelude_til_next_task : ℕ
prelude_til_next_task = virtual_slot_duration

unfoldable pub now_til_prelude_w_sync : Platform → Agent → ℕ → Checked ℕ
unfolding delta_now_to_next_sync_point
now_til_prelude_w_sync p a now =
    p.time.delta_subtraction (delta_now_to_next_sync_point p.time a.schedule now)
      prelude_til_next_task

unfoldable pub now_til_prelude_w_fish : Platform → Agent → ℕ → Checked ℕ
unfolding delta_to_fish_session_start
now_til_prelude_w_fish p a now =
    p.time.delta_subtraction (delta_to_fish_session_start p.time a.fish_times now)
      prelude_til_next_task

-- SyncSlotSchedule
unfoldable pub delta_to_this_sync_slot_middle_subslot : Platform → Agent → ℕ → ℕ
delta_to_this_sync_slot_middle_subslot p a now =
    p.time.clamped_time_difference
      (u64 (a.schedule.start_time_of_sync_period + delta_sync_slot_start_to_sync_slot_xmit p.chip))
      now

unfoldable pub delta_to_this_sync_slot_end : Platform → Agent → ℕ → ℕ
delta_to_this_sync_slot_end p a now =
    p.time.clamped_time_difference
      (u64 (a.schedule.start_time_of_sync_period + virtual_slot_duration)) now

-- SyncSchedule
unfoldable pub check_power_reserve_later : Agent → Agent
unfolding schedule_task
check_power_reserve_later a =
    schedule_task a power_reserve_check timeout_waiting_for_sync_power_sleeper

unfoldable pub maintain_sync_period : Platform → Agent → ℕ → Agent
unfolding schedule_task
maintain_sync_period p a now =
    schedule_task a start_sync_period_maintain (delta_now_to_next_sync_point p.time a.schedule now)

unfoldable pub radio_prelude_task_w_sync : Platform → Agent → ℕ → Checked Agent
unfolding schedule_task
radio_prelude_task_w_sync p a now = do
  delta ← now_til_prelude_w_sync p a now
  ok (schedule_task a prelude_w_sync delta)

unfoldable pub sync_slot_after_sync_slot : Platform → Agent → ℕ → Checked Agent
unfolding radio_prelude_task_w_sync
sync_slot_after_sync_slot p a now = do
  check (not a.is_prelude_started)
  radio_prelude_task_w_sync p a now

unfoldable pub start_sync_slot_from_prelude_start : Agent → Agent
unfolding schedule_task
start_sync_slot_from_prelude_start a =
    schedule_task a start_sync_slot_after_prelude prelude_til_next_task

unfoldable pub start_sync_slot_with_prelude_done : Platform → Agent → ℕ → Agent
unfolding schedule_task
start_sync_slot_with_prelude_done p a now =
    schedule_task a start_sync_slot_without_scheduled_prelude
      (delta_now_to_next_sync_point p.time a.schedule now)

unfoldable pub sync_send_task : Platform → Agent → ℕ → Agent
unfolding schedule_task
sync_send_task p a now =
    schedule_task a send_sync_task (delta_to_this_sync_slot_middle_subslot p a now)

unfoldable pub sync_slot_end_from_listen : Platform → Agent → ℕ → Agent
unfolding schedule_task
sync_slot_end_from_listen p a now =
    schedule_task a end_sync_slot_listen (delta_to_this_sync_slot_end p a now)

unfoldable pub sync_slot_end_from_send : Platform → Agent → ℕ → Agent
unfolding schedule_task
sync_slot_end_from_send p a now =
    schedule_task a end_sync_slot_send (delta_to_this_sync_slot_end p a now)

unfoldable pub omit_nonsync_slot : Platform → Agent → ℕ → Checked Agent
unfolding sync_slot_after_sync_slot
omit_nonsync_slot p a now = sync_slot_after_sync_slot p (undo_prelude a) now

unfoldable pub radio_prelude_task_w_fish : Platform → Agent → ℕ → Checked Agent
unfolding schedule_task
radio_prelude_task_w_fish p a now = do
  delta ← now_til_prelude_w_fish p a now
  ok (schedule_task a prelude_w_fish delta)

unfoldable pub start_fish_slot_from_prelude_start : Agent → Agent
unfolding schedule_task
start_fish_slot_from_prelude_start a = schedule_task a fish_slot_start prelude_til_next_task

unfoldable pub start_fish_slot_with_prelude_done : Platform → Agent → ℕ → Checked Agent
unfolding schedule_task
start_fish_slot_with_prelude_done p a now = do
  check a.is_prelude_started
  ok (schedule_task a fish_slot_start (delta_to_fish_session_start p.time a.fish_times now))

unfoldable pub fishing : Platform → Agent → ℕ → Checked Agent
unfolding start_fish_slot_with_prelude_done radio_prelude_task_w_fish
fishing p a now =
    if a.is_prelude_started
    then start_fish_slot_with_prelude_done p a now
    else radio_prelude_task_w_fish p a now

unfoldable pub schedule_fish_slot_end : Agent → Agent
unfolding schedule_task
schedule_fish_slot_end a = schedule_task a fish_slot_end (get_fish_session_duration_ticks a.fishing)

-- The slot before the next sync slot is over; `should` says whether the prelude is to be undone.
before_sync_slot : Platform → Agent → Bool → ℕ → Checked Agent
unfolding undo_prelude radio_prelude_task_w_sync start_sync_slot_with_prelude_done
before_sync_slot p a should now =
    if should
    then (do
      let b = undo_prelude a
      check (not b.is_prelude_started)
      radio_prelude_task_w_sync p b now)
    else ok (start_sync_slot_with_prelude_done p a now)

unfoldable pub sync_slot_after_fish_slot : Platform → Agent → ℕ → Checked Agent
unfolding before_sync_slot
sync_slot_after_fish_slot p a now =
    before_sync_slot p a (not (is_fish_slot_end_sync_period a.fishing)) now

unfoldable pub schedule_merger : Platform → Agent → ℕ → Checked Agent
unfolding schedule_task delta_to_this_merge_start
schedule_merger p a now = do
  delta ← delta_to_this_merge_start p a now
  ok (schedule_task a merger_start_and_end delta)

unfoldable pub sync_slot_after_merging : Platform → Agent → ℕ → Checked Agent
unfolding before_sync_slot
sync_slot_after_merging p a now = before_sync_slot p a (not (is_merger_end_sync_period p a)) now

unfoldable pub schedule_provision_start : Agent → Agent
unfolding schedule_task
schedule_provision_start a = schedule_task a provision_start 0

unfoldable pub schedule_provision_end : Agent → Agent
unfolding schedule_task
schedule_provision_end a = schedule_task a provision_end 0

-- The source asks the merger here too.
unfoldable pub sync_slot_after_provisioning : Platform → Agent → ℕ → Checked Agent
unfolding before_sync_slot
sync_slot_after_provisioning p a now =
    before_sync_slot p a (not (is_merger_end_sync_period p a)) now
