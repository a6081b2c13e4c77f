-- ===== src/Agent/Tasks.antt =====
-- src/task/task.cpp, fishTask.cpp, mergerTask.cpp, checkPowerReserve.cpp and
-- src/provisioning/provisionTask.cpp: the tasks, each of which runs to completion when its timer
-- expires and schedules the next one.
pub mod OneNext
pub mod Graph
pub mod Syncing
pub mod FishSlot
pub mod FishListening
pub mod FishPeriod
pub mod SyncPeriod
pub mod Chain
pub mod Prelude
pub mod Merging
pub mod MergeSlot
pub mod LastRepeat
pub mod Exchange
pub mod Sent
pub mod Sound
use sleep_sync_agent.Agent.{
  Agent, Platform, SyncSlotKind, Task, end_sync_slot_listen, end_sync_slot_send, fish_slot_end,
  fish_slot_start, fisher, listen, maintain, merger, merger_start_and_end, no_fishing,
  power_reserve_check, prelude_w_fish, prelude_w_sync, provision_end, provision_start, send_sync,
  send_sync_task, start_sync_period_maintain, start_sync_slot_after_prelude,
  start_sync_slot_without_scheduled_prelude, sync_and_fish_merge, sync_and_provision, sync_only,
}
use sleep_sync_agent.Agent.Mastership.{assume_mastership}
use sleep_sync_agent.Agent.Merging.{check_completion_of_merger_role, stop_merger}
use sleep_sync_agent.Agent.Modes.{is_power_for_fish_slot, is_power_for_start_loop}
use sleep_sync_agent.Agent.Sender.{
  send_control_sync, send_master_sync, send_merge_sync, send_work_sync,
}
use sleep_sync_agent.Agent.SyncSchedule.{
  check_power_reserve_later, do_prelude, fishing, maintain_sync_period, omit_nonsync_slot,
  radio_prelude_task_w_sync, schedule_fish_slot_end, schedule_merger, schedule_provision_start,
  start_fish_slot_from_prelude_start, start_sync_slot_from_prelude_start, sync_slot_after_fish_slot,
  sync_slot_after_merging, sync_slot_after_provisioning, sync_slot_after_sync_slot,
  sync_slot_end_from_send, try_undo_after_syncing, undo_prelude,
}
use sleep_sync_agent.Agent.SyncSlot.{
  Answers, bookkeeping_at_prelude_to_sync_slot, dispatch_sync_slot_kind, end_listen, init_agent,
  prelude_to_loop, prelude_to_sync_period,
}
use sleep_sync_agent.Base.{
  Bool, Checked, Option, check, failed, if◌then◌else◌, none, not, ok, some, ◌>>=◌, ◌>>◌, ◌∷◌,
}
use sleep_sync_agent.Fishing.DeepFishing.{DoneCallback, end_with_no_action, end_with_recover_master}
use sleep_sync_agent.Fishing.FishSchedule.{set_start_and_end_times}
use sleep_sync_agent.Fishing.Manager.{Fishing, check_fishing_done, pre_fishing}
use sleep_sync_agent.Message.{SyncMessage}

-- SSTask::tryFishOrMerge
pub try_fish_or_merge : Platform → Agent → Answers → Checked Agent
try_fish_or_merge p a v = elim a.role [
  | merger ↦ if v.merge_toss then schedule_merger p a v.now else omit_nonsync_slot p a v.now
  | fisher ↦
      if is_power_for_fish_slot v.power
      then (let (fished, times) = set_start_and_end_times a.fishing a.schedule a.fish_times in
          fishing p (record a { fishing = fished; fish_times = times }) v.now)
      else omit_nonsync_slot p a v.now
  | no_fishing ↦ omit_nonsync_slot p a v.now
]

pub pre_fishing_of_agent : Agent → Checked Agent
pre_fishing_of_agent a = do fished ← pre_fishing a.fishing; ok (record a { fishing = fished })

-- Without SOFTDEVICE_PRESENT, the mode that provisions schedules nothing.
pub dispatch_mode : Platform → Agent → Answers → Checked Agent
dispatch_mode p a v = elim a.mode [
  | sync_only ↦ sync_slot_after_sync_slot p a v.now
  | sync_and_fish_merge ↦ try_fish_or_merge p a v
  | sync_and_provision ↦ ok (if p.softdevice_present then schedule_provision_start a else a)
  | maintain ↦ failed
]

pub schedule_non_sync_task : Platform → Agent → Answers → Checked Agent
unfolding pre_fishing_of_agent dispatch_mode
schedule_non_sync_task p a v = do
  b ← pre_fishing_of_agent a
  c ← try_undo_after_syncing p b
  dispatch_mode p c v

-- SSTask::sendSync
unfoldable pub message_for_kind : Platform → Agent → Answers → Checked SyncMessage
message_for_kind p a v = elim a.sync_slot_kind [
  | SyncSlotKind.send_work_sync ↦ send_work_sync p a v.message v.mail v.now
  | send_sync ↦ send_master_sync p a v.message v.now
  | SyncSlotKind.send_control_sync ↦ send_control_sync p a v.message v.now
  | listen ↦ failed
]

pub run_send_sync : Platform → Agent → Answers → Checked Agent
unfolding message_for_kind sync_slot_end_from_send
run_send_sync p a v = do
  m ← message_for_kind p a v
  ok (sync_slot_end_from_send p (record a { sent = m ∷ a.sent }) v.now)

pub run_start_sync_period_maintain : Platform → Agent → Answers → Checked Agent
unfolding prelude_to_sync_period maintain_sync_period
run_start_sync_period_maintain p a v = do
  check (not a.is_prelude_started)
  b ← bookkeeping_at_prelude_to_sync_slot p a v
  let c = prelude_to_sync_period b
  elim c.mode [
    | maintain ↦ ok (maintain_sync_period p c v.now)
    | _ ↦ radio_prelude_task_w_sync p c v.now
  ]

pub run_start_sync_slot_after_prelude : Platform → Agent → Answers → Checked Agent
unfolding prelude_to_sync_period maintain_sync_period undo_prelude
run_start_sync_slot_after_prelude p a v = do
  check a.is_prelude_started
  let b = prelude_to_sync_period a
  elim b.mode [
    | maintain ↦ ok (undo_prelude (maintain_sync_period p b v.now))
    | _ ↦ dispatch_sync_slot_kind p b v
  ]

-- theRadioPreludeTaskWSync
pub run_prelude_w_sync : Platform → Agent → Answers → Checked Agent
unfolding start_sync_slot_from_prelude_start do_prelude
run_prelude_w_sync p a v =
    bookkeeping_at_prelude_to_sync_slot p (do_prelude (start_sync_slot_from_prelude_start a)) v

unfoldable pub run_fish_slot_start : Agent → Checked Agent
unfolding schedule_fish_slot_end
run_fish_slot_start a = do check a.is_prelude_started; ok (schedule_fish_slot_end a)

-- The callbacks of deep fishing: src/slots/fishing/deepFishing.cpp.
unfoldable pub end_deep_fishing : Platform → Agent → Option DoneCallback → Agent
end_deep_fishing p a none = a
end_deep_fishing p a (some end_with_no_action) = a
end_deep_fishing p a (some end_with_recover_master) = assume_mastership p a

unfoldable pub finish_fishing : Platform → Agent → Fishing × Option DoneCallback → Agent
unfolding end_deep_fishing
finish_fishing p a (fished, called) = end_deep_fishing p (record a { fishing = fished }) called

pub run_fish_slot_end : Platform → Agent → Answers → Checked Agent
unfolding finish_fishing
run_fish_slot_end p a v = do
  check a.is_prelude_started
  done ← check_fishing_done a.fishing
  sync_slot_after_fish_slot p (finish_fishing p a done) v.now

unfoldable pub stop_merger_if : Agent × Bool → Checked Agent
stop_merger_if (a, is_complete) = if is_complete then stop_merger a else ok a

unfoldable pub run_merger_start_and_end : Platform → Agent → Answers → Checked Agent
unfolding stop_merger_if
run_merger_start_and_end p a v = do
  m ← send_merge_sync p a v.message v.now
  counted ← check_completion_of_merger_role (record a { sent = m ∷ a.sent })
  b ← stop_merger_if counted
  sync_slot_after_merging p b v.now

pub run_power_reserve_check : Platform → Agent → Answers → Checked Agent
unfolding check_power_reserve_later maintain_sync_period init_agent prelude_to_loop
run_power_reserve_check p a v =
    if is_power_for_start_loop v.power
    then (do
      b ← init_agent p a v.now
      c ← prelude_to_loop p b v.now
      ok (maintain_sync_period p c v.now))
    else ok (check_power_reserve_later a)

-- Once the provisioner is started, its callback schedules the end.
pub run_provision_start : Platform → Agent → Answers → Checked Agent
run_provision_start p a v = do
  check a.is_prelude_started
  if v.is_provisioner_started then ok a else sync_slot_after_provisioning p a v.now

unfoldable pub run : Platform → Agent → Answers → Task → Checked Agent
unfolding do_prelude start_fish_slot_from_prelude_start
run p a v power_reserve_check = run_power_reserve_check p a v
run p a v start_sync_period_maintain = run_start_sync_period_maintain p a v
run p a v prelude_w_sync = run_prelude_w_sync p a v
run p a v prelude_w_fish = ok (do_prelude (start_fish_slot_from_prelude_start a))
run p a v start_sync_slot_after_prelude = run_start_sync_slot_after_prelude p a v
run p a v start_sync_slot_without_scheduled_prelude = run_start_sync_slot_after_prelude p a v
run p a v send_sync_task = run_send_sync p a v
run p a v end_sync_slot_listen = do b ← end_listen p a v.now; schedule_non_sync_task p b v
run p a v end_sync_slot_send = do check a.is_prelude_started; schedule_non_sync_task p a v
run p a v fish_slot_start = run_fish_slot_start a
run p a v fish_slot_end = run_fish_slot_end p a v
run p a v merger_start_and_end = run_merger_start_and_end p a v
run p a v provision_start = run_provision_start p a v
run p a v provision_end = sync_slot_after_provisioning p a v.now
