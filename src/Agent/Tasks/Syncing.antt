-- ===== src/Agent/Tasks/Syncing.antt =====
-- A sync period of a unit that only syncs, from its prelude to the next one. Code: src/task/task.cpp,
-- src/schedule/syncSchedule.cpp, src/slots/sync/syncSlot.cpp, src/receiver/receiver.cpp.

use sleep_sync_agent.Agent.{
  Agent, Platform, SyncSlotKind, Task, end_sync_slot_listen, end_sync_slot_send, listen,
  prelude_w_sync, send_sync, send_sync_task, start_sync_slot_after_prelude, sync_only,
}
use sleep_sync_agent.Agent.Control.{should_send_control_sync}
use sleep_sync_agent.Agent.Mastership.{should_transmit_sync}
use sleep_sync_agent.Agent.Modes.{
  PowerReading, check_power_and_try_mode_transitions, manage_fish_power, reset_work_state,
}
use sleep_sync_agent.Agent.Receiver.Slot.{Arrival, receive, sync_slot_handler}
use sleep_sync_agent.Agent.Receiver.Slot.Answered.{AreHearable, receive-IsReady}
use sleep_sync_agent.Agent.Receiver.Slot.Frame.{AreNoOrders, receive-FramedIfOk}
use sleep_sync_agent.Agent.Receiver.Total.{IsReady}
use sleep_sync_agent.Agent.Reversion.{check_master_dropped_out}
use sleep_sync_agent.Agent.Sender.{make_sync, send_master_sync, send_work_sync}
use sleep_sync_agent.Agent.SyncSchedule.{
  do_prelude, now_til_prelude_w_sync, radio_prelude_task_w_sync, should_undo_after_syncing,
  start_sync_slot_from_prelude_start, sync_send_task, sync_slot_after_sync_slot,
  sync_slot_end_from_listen, sync_slot_end_from_send, try_undo_after_syncing,
}
use sleep_sync_agent.Agent.SyncSlot.{
  Answers, bookkeeping_at_prelude_to_sync_slot, decide_kind, dispatch_sync_slot_kind, end_listen,
  prelude_to_sync_period,
}
use sleep_sync_agent.Agent.Tasks.{
  dispatch_mode, pre_fishing_of_agent, run, run_prelude_w_sync, run_send_sync,
  run_start_sync_slot_after_prelude, schedule_non_sync_task,
}
use sleep_sync_agent.Agent.Tasks.OneNext.{needs_prelude, next_task}
use sleep_sync_agent.Base.{
  Bool, List, Succeeds, Succeeds-bind, arith, false, not, some, true, ℕ, ◌&&◌, ◌+◌, ◌-◌, ◌<◌, ◌^◌,
  ◌≡◌, ◌≤◌, ◌⊎◌,
}
use sleep_sync_agent.Clique.DropoutMonitor.{is_dropout}
use sleep_sync_agent.Fishing.Manager.{pre_fishing}
use sleep_sync_agent.Fishing.Trolling.InRange.{manage-Keeps, pre_fishing-Keeps}
use sleep_sync_agent.Message.{does_carry_sync}
use sleep_sync_agent.Message.MessageFactory.{init_sync_message}
use sleep_sync_agent.Params.{
  max_missing_syncs_per_dropout, normal_sync_period_duration, send_latency, virtual_slot_duration,
}
use sleep_sync_agent.Schedule.{Schedule, delta_now_to_next_sync_point, roll_period_forward}
use sleep_sync_agent.Schedule.Adjusting.{clock_limit}
use sleep_sync_agent.Schedule.SyncOffset.{calculate}
use sleep_sync_agent.TimeMath.{TimeLaws}

-- A ready unit in the mode to sync only, without a control message to repeat, with that task next
-- and the prelude as the task needs it.
pub record IsSyncing (p : Platform) (task : Task) (a : Agent) : Type 0 where
  pub ready : IsReady p a
  pub only_syncs : a.mode ≡ sync_only
  pub prelude : a.is_prelude_started ≡ needs_prelude task
  pub comes_next : next_task a ≡ some task
  pub calm : a.repeater.is_active ≡ false

-- The schedule is that one, and that many sync slots have been silent, at most.
abbrev pub IsOn : Schedule → ℕ → Agent → Type 0
IsOn s count a = (a.schedule ≡ s) × (a.count_sync_slots_without_sync_msg ≤ count)

-- Power to sync, and not to fish.
abbrev pub is_power_to_sync_only : PowerReading → Bool
is_power_to_sync_only v = v.is_above_ultra_low && not v.is_above_medium

pub run_prelude-IsSyncing :
    (p : Platform) (a : Agent) (v : Answers)
    → IsSyncing p prelude_w_sync a
    → is_power_to_sync_only v.power ≡ true
    → Succeeds
        (λ b.
          IsSyncing p start_sync_slot_after_prelude b
          × IsOn a.schedule a.count_sync_slots_without_sync_msg b)
        (run p a v prelude_w_sync)
unfolding run run_prelude_w_sync bookkeeping_at_prelude_to_sync_slot manage_fish_power
    check_power_and_try_mode_transitions do_prelude start_sync_slot_from_prelude_start
run_prelude-IsSyncing p a v h k =
    ground (arith, manage-Keeps a.fishing.troll v.power.is_at_least_2_7 h.ready.sound.member.trolls)

-- What the sync slot does: it listens, or it sends something.
abbrev pub IsSlotBegun : Platform → Agent → Type 0
IsSlotBegun p a =
    ((a.sync_slot_kind ≡ listen) × IsSyncing p end_sync_slot_listen a)
    ⊎ (((a.sync_slot_kind ≡ send_sync) ⊎ (a.sync_slot_kind ≡ SyncSlotKind.send_work_sync))
        × IsSyncing p send_sync_task a)

pub run_slot_start-IsSyncing :
    (p : Platform) (s : Schedule) (count : ℕ) (a : Agent) (v : Answers)
    → IsSyncing p start_sync_slot_after_prelude a
    → IsOn s count a
    → s.end_time_of_sync_period < clock_limit
    → Succeeds
        (λ b. IsSlotBegun p b × IsOn (roll_period_forward s) count b)
        (run p a v start_sync_slot_after_prelude)
unfolding run run_start_sync_slot_after_prelude dispatch_sync_slot_kind decide_kind
    should_transmit_sync should_send_control_sync sync_send_task sync_slot_end_from_listen
    prelude_to_sync_period reset_work_state roll_period_forward
run_slot_start-IsSyncing p s count a v h on k = ground arith

-- A unit that has listened is still the same in what its next task needs.
pub receive-IsSyncing :
    (p : Platform) (a : Agent) (xs : List Arrival)
    → IsSyncing p end_sync_slot_listen a
    → AreHearable a.schedule xs
    → AreNoOrders xs
    → Succeeds
        (λ r.
          IsSyncing p end_sync_slot_listen r.0
          × (r.0.schedule.start_time_of_sync_period ≡ a.schedule.start_time_of_sync_period)
          × (r.0.count_sync_slots_without_sync_msg ≤ a.count_sync_slots_without_sync_msg))
        (receive (sync_slot_handler p) a xs)
receive-IsSyncing p a xs v h n =
    ground (arith, receive-IsReady p a xs v.ready h, receive-FramedIfOk p a xs n)

-- What a unit sends in its sync slot is not too far from the next sync point to say so.
pub run_send-IsSyncing :
    (p : Platform) (s : Schedule) (count : ℕ) (a : Agent) (v : Answers)
    → TimeLaws p.time
    → IsSyncing p send_sync_task a
    → (a.sync_slot_kind ≡ send_sync) ⊎ (a.sync_slot_kind ≡ SyncSlotKind.send_work_sync)
    → IsOn s count a
    → v.now ≤ s.end_time_of_sync_period
    → s.end_time_of_sync_period ≤ v.now + normal_sync_period_duration
    → Succeeds (λ b. IsSyncing p end_sync_slot_send b × IsOn s count b) (run p a v send_sync_task)
unfolding run run_send_sync send_work_sync send_master_sync make_sync init_sync_message calculate
    delta_now_to_next_sync_point sync_slot_end_from_send does_carry_sync
run_send-IsSyncing p s count a v laws h k on early late =
    let end = s.end_time_of_sync_period in
    ground (
      arith,
      laws.time_exact end v.now early (omega arith),
      laws.clamped_exact (end - v.now) (send_latency p.chip),
      laws.clamped_zero (end - v.now) (send_latency p.chip),
    )

pub schedule_non_sync_task-IsSyncing :
    (p : Platform) (s : Schedule) (count : ℕ) (a : Agent) (v : Answers)
    → TimeLaws p.time
    → IsReady p a
    → a.mode ≡ sync_only
    → a.repeater.is_active ≡ false
    → a.is_prelude_started ≡ true
    → IsOn s count a
    → v.now + virtual_slot_duration ≤ s.end_time_of_sync_period
    → s.end_time_of_sync_period < v.now + 2 ^ 32
    → Succeeds (λ b. IsSyncing p prelude_w_sync b × IsOn s count b) (schedule_non_sync_task p a v)
unfolding schedule_non_sync_task pre_fishing_of_agent pre_fishing try_undo_after_syncing
    should_undo_after_syncing dispatch_mode sync_slot_after_sync_slot radio_prelude_task_w_sync
    now_til_prelude_w_sync delta_now_to_next_sync_point
schedule_non_sync_task-IsSyncing p s count a v laws r m c o on early near =
    let end = s.end_time_of_sync_period in
    ground (
      arith,
      pre_fishing-Keeps a.fishing.troll r.sound.member.trolls,
      laws.time_exact end v.now (omega arith) near,
      laws.delta_exact (end - v.now) virtual_slot_duration (omega arith),
    )

pub run_end_send-IsSyncing :
    (p : Platform) (s : Schedule) (count : ℕ) (a : Agent) (v : Answers)
    → TimeLaws p.time
    → IsSyncing p end_sync_slot_send a
    → IsOn s count a
    → v.now + virtual_slot_duration ≤ s.end_time_of_sync_period
    → s.end_time_of_sync_period < v.now + 2 ^ 32
    → Succeeds (λ b. IsSyncing p prelude_w_sync b × IsOn s count b) (run p a v end_sync_slot_send)
unfolding run
run_end_send-IsSyncing p s count a v laws h on early near = ground (
  arith,
  schedule_non_sync_task-IsSyncing p s count a v laws h.ready h.only_syncs h.calm h.prelude on early
      near,
)

end_listen-IsSyncing :
    (p : Platform) (a : Agent) (now : ℕ)
    → IsSyncing p end_sync_slot_listen a
    → a.count_sync_slots_without_sync_msg < max_missing_syncs_per_dropout
    → Succeeds
        (λ b.
          IsSyncing p end_sync_slot_listen b
          × IsOn a.schedule (a.count_sync_slots_without_sync_msg + 1) b)
        (end_listen p a now)
unfolding end_listen check_master_dropped_out is_dropout
end_listen-IsSyncing p a now v h = ground arith

pub run_end_listen-IsSyncing :
    (p : Platform) (a : Agent) (v : Answers)
    → TimeLaws p.time
    → IsSyncing p end_sync_slot_listen a
    → a.count_sync_slots_without_sync_msg < max_missing_syncs_per_dropout
    → v.now + virtual_slot_duration ≤ a.schedule.end_time_of_sync_period
    → a.schedule.end_time_of_sync_period < v.now + 2 ^ 32
    → Succeeds
        (λ b.
          IsSyncing p prelude_w_sync b
          × IsOn a.schedule (a.count_sync_slots_without_sync_msg + 1) b)
        (run p a v end_sync_slot_listen)
unfolding run
run_end_listen-IsSyncing p a v laws h few early near =
    let count = a.count_sync_slots_without_sync_msg + 1 in
    Succeeds-bind (λ b. IsSyncing p end_sync_slot_listen b × IsOn a.schedule count b)
      (λ b. IsSyncing p prelude_w_sync b × IsOn a.schedule count b) (end_listen p a v.now)
      (λ b. schedule_non_sync_task p b v) (end_listen-IsSyncing p a v.now h few)
      (λ b (w, on).
        schedule_non_sync_task-IsSyncing p a.schedule count b v laws w.ready w.only_syncs w.calm
          w.prelude on early near)
