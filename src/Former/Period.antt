-- ===== src/Former/Period.antt =====
-- src/sleepingSlots/fishSlot.cpp, mergeSlot.cpp, combinedSyncPeriod.cpp and modalSyncPeriod.cpp: the
-- former sync period, one slot after another. BLE_PROVISIONED is not defined.

use sleep_sync_agent.Agent.{
  Agent, Platform, fisher, is_merger, maintain, merger, no_fishing, sync_and_fish_merge,
  sync_and_provision, sync_only,
}
use sleep_sync_agent.Agent.Merging.{check_completion_of_merger_role, delta_to_this_merge_start}
use sleep_sync_agent.Agent.Modes.{
  PowerReading, check_power_and_try_mode_transitions, is_power_for_fish_slot,
}
use sleep_sync_agent.Agent.Receiver.Slot.{fish_slot_handler}
use sleep_sync_agent.Agent.Sender.{send_merge_sync}
use sleep_sync_agent.Agent.SyncSlot.{Answers}
use sleep_sync_agent.Agent.Tasks.{finish_fishing, stop_merger_if}
use sleep_sync_agent.Base.{
  Bool, Checked, List, check, failed, if◌then◌else◌, ok, ℕ, ◌>>=◌, ◌>>◌, ◌∷◌,
}
use sleep_sync_agent.Fishing.FishSchedule.{
  delta_to_fish_session_end, delta_to_fish_session_start, set_start_and_end_times,
}
use sleep_sync_agent.Fishing.Manager.{check_fishing_done}
use sleep_sync_agent.Former.{Wake}
use sleep_sync_agent.Former.Sleeper.{sleep_until_msg_accepted_or_timeout, sleep_until_timeout}
use sleep_sync_agent.Former.SyncSlot.{Slot, try_perform_sync_slot}
use sleep_sync_agent.Schedule.{delta_now_to_next_sync_point}

-- What a unit meets in the rest of its period.
pub record Rest : Type 0 where
  pub sync_slot : Slot
  pub power_at_prelude : PowerReading
  pub merge_toss : Bool
  pub before_slot : Answers
  pub at_slot : Answers
  pub fish_wakes : List Wake
  pub now_at_remainder : ℕ

unfoldable pub perform_fish_slot : Platform → Agent → Rest → Checked Agent
perform_fish_slot p a s = do
  r ←
      sleep_until_msg_accepted_or_timeout (fish_slot_handler p) a
        (delta_to_fish_session_end p.time a.fish_times s.at_slot.now) s.fish_wakes
  done ← check_fishing_done r.0.fishing
  ok (finish_fishing p r.0 done)

-- FishSlot::tryPerform
unfoldable pub try_perform_fish_slot : Platform → Agent → Rest → Checked Agent
unfolding perform_fish_slot
try_perform_fish_slot p a s = do
  let (fished, times) = set_start_and_end_times a.fishing a.schedule a.fish_times
  let b = record a { fishing = fished; fish_times = times }
  u ← sleep_until_timeout (delta_to_fish_session_start p.time b.fish_times s.before_slot.now)
  if is_power_for_fish_slot s.at_slot.power then perform_fish_slot p b s else ok b

-- MergeSlot::tryPerform and MergeSlot::perform
unfoldable pub perform_merge_slot : Platform → Agent → Rest → Checked Agent
perform_merge_slot p a s = do
  check (is_merger a.role)
  delta ← delta_to_this_merge_start p a s.before_slot.now
  u ← sleep_until_timeout delta
  m ← send_merge_sync p a s.at_slot.message s.at_slot.now
  counted ← check_completion_of_merger_role (record a { sent = m ∷ a.sent })
  stop_merger_if counted

-- FishWaitingPolicy::advance does nothing.
unfoldable pub former_fish_or_merge : Platform → Agent → Rest → Checked Agent
unfolding try_perform_fish_slot perform_merge_slot
former_fish_or_merge p a s = elim a.role [
  | merger ↦ if s.merge_toss then perform_merge_slot p a s else ok a
  | fisher ↦ try_perform_fish_slot p a s
  | no_fishing ↦ ok a
]

sleep_remainder : Platform → Agent → ℕ → Checked Agent
sleep_remainder p a now = do
  u ← sleep_until_timeout (delta_now_to_next_sync_point p.time a.schedule now)
  ok a

-- CombinedSyncPeriod::doSlotSequence
unfoldable pub do_slot_sequence : Platform → Agent → Rest → Checked Agent
unfolding former_fish_or_merge sleep_remainder
do_slot_sequence p a s = do
  b ← try_perform_sync_slot p a s.sync_slot
  c ← former_fish_or_merge p b s
  sleep_remainder p c s.now_at_remainder

-- ModalSyncPeriod::perform
unfoldable pub perform_period : Platform → Agent → Rest → Checked Agent
unfolding do_slot_sequence sleep_remainder
perform_period p a s =
    let b = check_power_and_try_mode_transitions p a s.power_at_prelude in
    elim b.mode [
      | maintain ↦ sleep_remainder p b s.now_at_remainder
      | sync_only ↦ do_slot_sequence p b s
      | sync_and_fish_merge ↦ do_slot_sequence p b s
      | sync_and_provision ↦ failed
    ]
