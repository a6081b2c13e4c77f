-- ===== src/Agent/Tasks/FishSlot.antt =====
-- From the end of a fisher's sync slot to its fish slot. Code: src/task/task.cpp, fishTask.cpp,
-- src/schedule/syncSchedule.cpp, radioPrelude.cpp, sleepDuration.cpp, src/slots/fishing.
use sleep_sync_agent.Fishing.Trolling as Trolling
use sleep_sync_agent.Agent.{
  Agent, Platform, Task, fish_slot_end, fish_slot_start, fisher, prelude_w_fish, prelude_w_sync,
  start_sync_slot_without_scheduled_prelude, sync_and_fish_merge,
}
use sleep_sync_agent.Agent.Modes.{is_power_for_fish_slot}
use sleep_sync_agent.Agent.Receiver.Total.{IsReady}
use sleep_sync_agent.Agent.SyncSchedule.{
  do_prelude, fishing, now_til_prelude_w_fish, now_til_prelude_w_sync, radio_prelude_task_w_fish,
  radio_prelude_task_w_sync, schedule_fish_slot_end, should_undo_after_syncing,
  start_fish_slot_from_prelude_start, start_fish_slot_with_prelude_done,
  start_sync_slot_with_prelude_done, sync_slot_after_fish_slot, try_undo_after_syncing,
  undo_prelude,
}
use sleep_sync_agent.Agent.SyncSlot.{Answers}
use sleep_sync_agent.Agent.Tasks.{
  dispatch_mode, end_deep_fishing, pre_fishing_of_agent, run, run_fish_slot_end,
  run_fish_slot_start, schedule_non_sync_task, try_fish_or_merge,
}
use sleep_sync_agent.Agent.Tasks.OneNext.{needs_prelude, next_task}
use sleep_sync_agent.Base.{
  Succeeds, Succeeds-bind, arith, false, ok, some, true, ℕ, ◌*◌, ◌+◌, ◌-◌, ◌<◌, ◌>>=◌, ◌≡◌, ◌≤◌,
  ◌⊎◌,
}
use sleep_sync_agent.Fishing.FishSchedule.{delta_to_fish_session_start, set_start_and_end_times}
use sleep_sync_agent.Fishing.Manager.{
  check_fishing_done, get_fish_session_duration_ticks, get_start_time_to_fish,
  is_fish_slot_end_sync_period, is_fish_slot_start_sync_period, pre_fishing, trolling,
}
use sleep_sync_agent.Fishing.Trolling.{Trolling}
use sleep_sync_agent.Fishing.Trolling.InRange.{IsTrolling}
use sleep_sync_agent.Network.SendRepeater.{start}
use sleep_sync_agent.Params.{normal_sync_period_duration, virtual_slot_duration}
use sleep_sync_agent.Schedule.{
  Schedule, clamp_time_before_latest_slot_mark, delta_now_to_next_sync_point,
}
use sleep_sync_agent.Schedule.Adjusting.{IsScheduled, clock_limit}
use sleep_sync_agent.TimeMath.{TimeLaws}

-- The session ends before the last two slots of the normal period, or is known to be near its end.
abbrev pub EndsInTime : Agent → Type 0
EndsInTime a =
    (is_fish_slot_end_sync_period a.fishing ≡ true)
    ⊎ (a.fish_times.end_time_of_fish_slot + 2 * virtual_slot_duration
        ≤ a.schedule.start_time_of_sync_period + normal_sync_period_duration)

-- A ready unit in the mode to fish that trolls, with that task next and the prelude as the task
-- needs it.
pub record IsFishing (p : Platform) (task : Task) (a : Agent) : Type 0 where
  pub ready : IsReady p a
  pub fishes : a.mode ≡ sync_and_fish_merge
  pub trolls : a.fishing.mode ≡ trolling
  pub prelude : a.is_prelude_started ≡ needs_prelude task
  pub comes_next : next_task a ≡ some task
  pub in_time : EndsInTime a
  pub session :
      a.fish_times.end_time_of_fish_slot
      ≡ a.schedule.start_time_of_sync_period
        + a.fishing.troll.current_end_slot_ordinal * virtual_slot_duration

-- The session's slots are those from its start to its end.
abbrev IsSpanned : Trolling → Type 0
IsSpanned t =
    t.current_end_slot_ordinal + 1 ≡ t.current_start_slot_ordinal + t.session.duration_in_slots

pre_fishing-IsSpanned :
    (a : Agent)
    → IsTrolling a.fishing.troll
    → a.fishing.mode ≡ trolling
    → Succeeds
        (λ m.
          IsTrolling m.troll × IsSpanned m.troll × (m.mode ≡ trolling) × (m.deep ≡ a.fishing.deep))
        (pre_fishing a.fishing)
unfolding pre_fishing Trolling.pre_fishing
pre_fishing-IsSpanned a v m = ground arith

-- The next session of a trolling fisher.
next_session-EndsInTime :
    (a : Agent)
    → IsTrolling a.fishing.troll
    → IsSpanned a.fishing.troll
    → IsScheduled a.schedule
    → a.schedule.start_time_of_sync_period < clock_limit
    → a.fishing.mode ≡ trolling
    → let (fished, times) = set_start_and_end_times a.fishing a.schedule a.fish_times in
      EndsInTime (record a { fishing = fished; fish_times = times })
      × (fished ≡ a.fishing)
      × ((is_fish_slot_start_sync_period a.fishing ≡ true)
          ⊎ (a.schedule.start_time_of_sync_period + 3 * virtual_slot_duration
              ≤ times.start_time_of_fish_slot))
      × (times.start_time_of_fish_slot
          ≤ a.schedule.start_time_of_sync_period + normal_sync_period_duration)
      × (times.end_time_of_fish_slot
          ≡ a.schedule.start_time_of_sync_period
            + a.fishing.troll.current_end_slot_ordinal * virtual_slot_duration)
unfolding set_start_and_end_times clamp_time_before_latest_slot_mark get_start_time_to_fish
    get_fish_session_duration_ticks Trolling.get_start_time_to_fish
    Trolling.get_fish_session_duration_ticks is_fish_slot_end_sync_period
    is_fish_slot_start_sync_period Trolling.is_fish_session_near_end_sync_period
    Trolling.is_fish_session_near_start_sync_period
next_session-EndsInTime a v e w near m = ground arith

-- A fisher about to choose its next task.
record IsChoosing (p : Platform) (s : Schedule) (t : Trolling) (a : Agent) : Type 0 where
  ready : IsReady p a
  fishes : a.mode ≡ sync_and_fish_merge
  is_fishing : a.role ≡ fisher
  trolls : a.fishing.mode ≡ trolling
  on : a.is_prelude_started ≡ true
  spanned : IsSpanned a.fishing.troll
  scheduled : a.schedule ≡ s
  chosen : a.fishing.troll ≡ t

pre_fishing_of_agent-IsChoosing :
    (p : Platform) (t : Trolling) (a : Agent)
    → Trolling.pre_fishing a.fishing.troll ≡ ok t
    → IsReady p a
    → a.mode ≡ sync_and_fish_merge
    → a.role ≡ fisher
    → a.fishing.mode ≡ trolling
    → a.is_prelude_started ≡ true
    → Succeeds (IsChoosing p a.schedule t) (pre_fishing_of_agent a)
unfolding pre_fishing_of_agent pre_fishing
pre_fishing_of_agent-IsChoosing p t a e r m o w d =
    ground (arith, pre_fishing-IsSpanned a r.sound.member.trolls w)

abbrev pub Chosen : Platform → Schedule → Trolling → Agent → Type 0
Chosen p s t b =
    (IsFishing p fish_slot_start b ⊎ IsFishing p prelude_w_fish b)
    × (b.role ≡ fisher)
    × (b.schedule ≡ s)
    × (b.fishing.troll ≡ t)

fish-Chosen :
    (p : Platform) (s : Schedule) (t : Trolling) (a : Agent) (v : Answers)
    → TimeLaws p.time
    → IsChoosing p s t a
    → is_power_for_fish_slot v.power ≡ true
    → s.start_time_of_sync_period ≤ v.now
    → v.now ≤ s.start_time_of_sync_period + 2 * virtual_slot_duration
    → Succeeds (Chosen p s t) (try_undo_after_syncing p a >>= λ c. dispatch_mode p c v)
unfolding try_undo_after_syncing should_undo_after_syncing dispatch_mode try_fish_or_merge fishing
    start_fish_slot_with_prelude_done radio_prelude_task_w_fish now_til_prelude_w_fish
    delta_to_fish_session_start
fish-Chosen p s t a v laws c k late early =
    let (fished, times) = set_start_and_end_times a.fishing a.schedule a.fish_times in
    let start = times.start_time_of_fish_slot in
    ground (
      arith,
      next_session-EndsInTime a c.ready.sound.member.trolls c.spanned c.ready.scheduled
          c.ready.early c.trolls,
      laws.time_exact start v.now,
      laws.delta_exact (start - v.now) virtual_slot_duration,
    )

-- After its sync slot a fisher with the power to fish schedules its fish slot, or the prelude to
-- it, if the task is not more than a slot late.
pub schedule_non_sync_task-Chosen :
    (p : Platform) (t : Trolling) (a : Agent) (v : Answers)
    → TimeLaws p.time
    → Trolling.pre_fishing a.fishing.troll ≡ ok t
    → IsReady p a
    → a.mode ≡ sync_and_fish_merge
    → a.role ≡ fisher
    → a.fishing.mode ≡ trolling
    → a.is_prelude_started ≡ true
    → is_power_for_fish_slot v.power ≡ true
    → a.schedule.start_time_of_sync_period ≤ v.now
    → v.now ≤ a.schedule.start_time_of_sync_period + 2 * virtual_slot_duration
    → Succeeds (Chosen p a.schedule t) (schedule_non_sync_task p a v)
unfolding schedule_non_sync_task
schedule_non_sync_task-Chosen p t a v laws e r m o w d k late early =
    Succeeds-bind (IsChoosing p a.schedule t) (Chosen p a.schedule t) (pre_fishing_of_agent a)
      (λ b. try_undo_after_syncing p b >>= λ c. dispatch_mode p c v)
      (pre_fishing_of_agent-IsChoosing p t a e r m o w d)
      (λ b c. fish-Chosen p a.schedule t b v laws c k late early)

-- A fisher that is to fish next, and keeps its schedule and the times of its session.
abbrev pub FishesOn : Platform → Task → Agent → Agent → Type 0
FishesOn p task a b =
    IsFishing p task b
    × (b.role ≡ a.role)
    × (b.schedule ≡ a.schedule)
    × (b.fish_times ≡ a.fish_times)
    × (b.fishing ≡ a.fishing)

pub prelude_w_fish-FishesOn :
    (p : Platform) (a : Agent) (v : Answers)
    → IsFishing p prelude_w_fish a
    → Succeeds (FishesOn p fish_slot_start a) (run p a v prelude_w_fish)
unfolding run start_fish_slot_from_prelude_start do_prelude
prelude_w_fish-FishesOn p a v h = ground arith

pub fish_slot_start-FishesOn :
    (p : Platform) (a : Agent) (v : Answers)
    → IsFishing p fish_slot_start a
    → Succeeds (FishesOn p fish_slot_end a) (run p a v fish_slot_start)
unfolding run run_fish_slot_start schedule_fish_slot_end
fish_slot_start-FishesOn p a v h = ground arith

-- What a fish slot comes to: the next sync slot is scheduled with its prelude, or its start with
-- the prelude on.
abbrev pub IsFished : Platform → ℕ → Agent → Type 0
IsFished p start b =
    IsReady p b
    × (b.schedule.start_time_of_sync_period ≡ start)
    × ((next_task b ≡ some prelude_w_sync) × (b.is_prelude_started ≡ false)
        ⊎ (next_task b ≡ some start_sync_slot_without_scheduled_prelude)
          × (b.is_prelude_started ≡ true))

pub fish_slot_end-IsFished :
    (p : Platform) (a : Agent) (v : Answers)
    → TimeLaws p.time
    → IsFishing p fish_slot_end a
    → a.schedule.start_time_of_sync_period ≤ v.now
    → v.now ≤ a.fish_times.end_time_of_fish_slot + virtual_slot_duration
    → Succeeds (IsFished p a.schedule.start_time_of_sync_period) (run p a v fish_slot_end)
unfolding run run_fish_slot_end check_fishing_done sync_slot_after_fish_slot
    radio_prelude_task_w_sync now_til_prelude_w_sync delta_now_to_next_sync_point
    start_sync_slot_with_prelude_done undo_prelude end_deep_fishing
fish_slot_end-IsFished p a v laws h late early =
    let end = a.schedule.end_time_of_sync_period in
    ground (
      arith,
      h.ready.scheduled,
      h.in_time,
      laws.time_exact end v.now,
      laws.delta_exact (end - v.now) virtual_slot_duration,
    )
