-- ===== src/Former/SyncSlot.antt =====
-- src/sleepingSlots/syncWorkSlot.cpp, syncSlotKinds.cpp and syncSubSlots.cpp: the former sync slot, in
-- which a unit that sends listens before and after. That the radio is off where the source asserts
-- it is left to the library.

use sleep_sync_agent.Agent.{Agent, Platform, SyncSlotKind, listen, send_sync}
use sleep_sync_agent.Agent.Behaviour.SyncSlotHandler.{
  stop_listening_heard_master_sync, stop_listening_heard_merge_sync, stop_listening_heard_work_sync,
}
use sleep_sync_agent.Agent.Control.{check_done_and_enact}
use sleep_sync_agent.Agent.Mastership.{is_self_master}
use sleep_sync_agent.Agent.Modes.{PowerReading, is_power_for_sync_slot}
use sleep_sync_agent.Agent.Receiver.Slot.{sync_slot_handler}
use sleep_sync_agent.Agent.Reversion.{check_master_dropped_out}
use sleep_sync_agent.Agent.SyncSchedule.{
  delta_to_this_sync_slot_end, delta_to_this_sync_slot_middle_subslot,
}
use sleep_sync_agent.Agent.SyncSlot.{Answers, decide_kind}
use sleep_sync_agent.Agent.Tasks.{message_for_kind}
use sleep_sync_agent.Base.{
  Bool, Checked, List, [], false, if◌then◌else◌, not, ok, true, ℕ, ◌>>=◌, ◌∷◌,
}
use sleep_sync_agent.Former.{Slept, Wake, accepted, msg_received}
use sleep_sync_agent.Former.Sleeper.{sleep_until_msg_accepted_or_timeout, sleep_until_timeout}

-- What a unit meets in a part of the slot in which it listens.
pub record Part : Type 0 where
  pub power : PowerReading
  pub now : ℕ
  pub wakes : List Wake

-- What it meets in the whole slot.
pub record Slot : Type 0 where
  pub power : PowerReading
  pub at_start : Answers
  pub first_half : Part
  pub at_send : Answers
  pub second_half : Part
  pub now_at_end : ℕ

-- No packet wakes the unit while its receiver is not started.
without_packets : List Wake → List Wake
without_packets [] = []
without_packets (w ∷ ws) =
    let rest_of_wakes = without_packets ws in
    elim w.reason [ msg_received x ↦ rest_of_wakes | _ ↦ w ∷ rest_of_wakes ]

-- doListenHalfSyncWorkSlot; `intended` is the time until the part is over.
unfoldable pub do_listen_half : Platform → Agent → Part → ℕ → Checked (Agent × Slept)
unfolding without_packets
do_listen_half p a part intended =
    sleep_until_msg_accepted_or_timeout (sync_slot_handler p) a intended
      (if is_power_for_sync_slot part.power then part.wakes else without_packets part.wakes)

unfoldable pub did_first_half_hear_sync : Slept → Bool
did_first_half_hear_sync (accepted stop_listening_heard_master_sync) = true
did_first_half_hear_sync (accepted stop_listening_heard_merge_sync) = true
did_first_half_hear_sync (accepted stop_listening_heard_work_sync) = true
did_first_half_hear_sync _ = false

listen_first : Platform → Agent → Slot → Checked (Agent × Slept)
listen_first p a s =
    do_listen_half p a s.first_half (delta_to_this_sync_slot_middle_subslot p a s.first_half.now)

listen_second : Platform → Agent → Slot → Checked Agent
listen_second p a s = do
  r ← do_listen_half p a s.second_half (delta_to_this_sync_slot_end p a s.second_half.now)
  ok r.0

send_now : Platform → Agent → Slot → Checked Agent
send_now p a s = do m ← message_for_kind p a s.at_send; ok (record a { sent = m ∷ a.sent })

-- doSendingControlSyncWorkSlot and doSendingWorkSyncWorkSlot
unfoldable pub do_sending_work_slot : Platform → Agent → Slot → Checked Agent
unfolding listen_first listen_second send_now
do_sending_work_slot p a s = do r ← listen_first p a s; c ← send_now p r.0 s; listen_second p c s

unfoldable pub do_master_sync_work_slot : Platform → Agent → Slot → Checked Agent
unfolding listen_first listen_second send_now
do_master_sync_work_slot p a s = do
  r ← listen_first p a s
  c ← if did_first_half_hear_sync r.1 then ok r.0 else send_now p r.0 s
  listen_second p c s

unfoldable pub do_slave_sync_work_slot : Platform → Agent → Slot → Checked Agent
do_slave_sync_work_slot p a s = do
  r ←
      sleep_until_msg_accepted_or_timeout (sync_slot_handler p) a
        (delta_to_this_sync_slot_end p a s.first_half.now) s.first_half.wakes
  ok r.0

-- A control sync is enacted after it was sent.
former_kind : Platform → Agent → Slot → SyncSlotKind → Checked Agent
former_kind p a s SyncSlotKind.send_control_sync = do
  b ← do_sending_work_slot p a s
  check_done_and_enact p b s.at_send.random_offset
former_kind p a s SyncSlotKind.send_work_sync = do_sending_work_slot p a s
former_kind p a s send_sync = do_master_sync_work_slot p a s
former_kind p a s listen = do_slave_sync_work_slot p a s

-- SyncWorkSlot::dispatchSyncSlotKind
unfoldable pub former_dispatch : Platform → Agent → Slot → Checked Agent
unfolding former_kind
former_dispatch p a s =
    let (b, kind) = decide_kind p a s.at_start in
    former_kind p (record b { sync_slot_kind = kind }) s kind

-- SyncWorkSlot::endListen
unfoldable pub former_end_listen : Platform → Agent → ℕ → Checked Agent
former_end_listen p a now =
    if not (is_self_master p a) then check_master_dropped_out p a now else ok a

unfoldable pub perform_sync_slot : Platform → Agent → Slot → Checked Agent
unfolding former_dispatch former_end_listen
perform_sync_slot p a s = do b ← former_dispatch p a s; former_end_listen p b s.now_at_end

-- SyncWorkSlot::tryPerform; without power the slot is slept through.
unfoldable pub try_perform_sync_slot : Platform → Agent → Slot → Checked Agent
unfolding perform_sync_slot
try_perform_sync_slot p a s =
    if is_power_for_sync_slot s.power
    then perform_sync_slot p a s
    else (do u ← sleep_until_timeout (delta_to_this_sync_slot_end p a s.at_start.now); ok a)
