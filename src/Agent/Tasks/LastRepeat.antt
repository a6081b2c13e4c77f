-- ===== src/Agent/Tasks/LastRepeat.antt =====
-- The last repeat of a scatter message. Code: src/slots/sync/syncSlot.cpp,
-- src/network/intraCliqueManager.cpp, src/modules/syncSender.cpp.
use native.Mathlib.Omega.{arith}
use sleep_sync_agent.Agent.{Agent, Platform, SyncSlotKind, send_sync_task}
use sleep_sync_agent.Agent.Control.{check_done_and_enact, enact, should_send_control_sync}
use sleep_sync_agent.Agent.Mastership.{should_transmit_sync}
use sleep_sync_agent.Agent.Reversion.{grab_mastership, scatter_sync}
use sleep_sync_agent.Agent.Sender.{make_sync, send_control_sync}
use sleep_sync_agent.Agent.SyncSchedule.{sync_send_task}
use sleep_sync_agent.Agent.SyncSlot.{Answers, decide_kind, dispatch_sync_slot_kind}
use sleep_sync_agent.Agent.Tasks.{run, run_send_sync}
use sleep_sync_agent.Base.{failed, ok, true, ◌+◌, ◌-◌, ◌<◌, ◌^◌, ◌≡◌, ◌≤◌}
use sleep_sync_agent.Fishing.Manager.{restart_trolling_mode}
use sleep_sync_agent.Message.MessageFactory.{init_sync_message}
use sleep_sync_agent.Network.SendRepeater.{
  check_done_and_enact_control, on_done_scatter, should_send,
}
use sleep_sync_agent.Params.{
  count_repeats_per_control_sync, normal_sync_period_duration, send_latency,
}
use sleep_sync_agent.Schedule.{adjust, adjust_with_random_added_time, delta_now_to_next_sync_point}
use sleep_sync_agent.Schedule.Adjusting.{clock_limit}
use sleep_sync_agent.Schedule.SyncOffset.{calculate}
use sleep_sync_agent.TimeMath.{TimeLaws}

scattered :
    (p : Platform) (a b : Agent) (v : Answers)
    → a.repeater.is_active ≡ true
    → a.repeater.on_done_callback ≡ on_done_scatter
    → a.repeater.repeater_counter ≡ count_repeats_per_control_sync
    → v.control_toss ≡ true
    → v.random_offset ≤ normal_sync_period_duration
    → a.schedule.start_time_of_sync_period < clock_limit
    → dispatch_sync_slot_kind p a v ≡ ok b
    → (b.sync_slot_kind ≡ SyncSlotKind.send_control_sync)
      × (b.schedule.end_time_of_sync_period
          ≡ a.schedule.start_time_of_sync_period + normal_sync_period_duration + v.random_offset)
unfolding dispatch_sync_slot_kind decide_kind should_transmit_sync should_send_control_sync
    should_send check_done_and_enact check_done_and_enact_control enact scatter_sync grab_mastership
    restart_trolling_mode adjust_with_random_added_time adjust sync_send_task
scattered p a b v i f c t r k e = ground arith

too_far-failed :
    (p : Platform) (b : Agent) (w : Answers)
    → TimeLaws p.time
    → b.sync_slot_kind ≡ SyncSlotKind.send_control_sync
    → w.now + send_latency p.chip + normal_sync_period_duration < b.schedule.end_time_of_sync_period
    → b.schedule.end_time_of_sync_period < w.now + 2 ^ 32
    → run_send_sync p b w ≡ failed
unfolding run_send_sync send_control_sync make_sync init_sync_message calculate
    delta_now_to_next_sync_point
too_far-failed p b w laws kind far near =
    let end = b.schedule.end_time_of_sync_period in
    ground (
      arith,
      laws.time_exact end w.now (omega arith) near,
      laws.clamped_exact (end - w.now) (send_latency p.chip) (omega arith),
    )

-- A master enacts a scatter when it schedules the last repeat, not when it has sent it: it is then
-- already on its scattered schedule. Under the laws of clock arithmetic, and far from the end of the
-- clock, where the random extension is longer than the time from the start of the period to the end
-- of the sending, the offset to send is too long and fails the assertion on it.
pub last_scatter-failed :
    (p : Platform) (a b : Agent) (v w : Answers)
    → TimeLaws p.time
    → a.repeater.is_active ≡ true
    → a.repeater.on_done_callback ≡ on_done_scatter
    → a.repeater.repeater_counter ≡ count_repeats_per_control_sync
    → v.control_toss ≡ true
    → v.random_offset ≤ normal_sync_period_duration
    → a.schedule.start_time_of_sync_period < clock_limit
    → a.schedule.start_time_of_sync_period ≤ w.now
    → w.now + send_latency p.chip < a.schedule.start_time_of_sync_period + v.random_offset
    → dispatch_sync_slot_kind p a v ≡ ok b
    → run p b w send_sync_task ≡ failed
unfolding run dispatch_sync_slot_kind
last_scatter-failed p a b v w laws i f c t r k n o e =
    let done = scattered p a b v i f c t r k e in
    too_far-failed p b w laws done.0 (omega (arith, done.1)) (omega (arith, done.1))
