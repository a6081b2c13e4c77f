-- ===== src/Examples/Formerly.antt =====
-- Examples of the properties of the former design.

use sleep_sync_agent.Agent.{listen}
use sleep_sync_agent.Agent.Control.{should_send_control_sync}
use sleep_sync_agent.Agent.Mastership.{should_transmit_sync}
use sleep_sync_agent.Agent.Receiver.Slot.{receive, sync_slot_handler}
use sleep_sync_agent.Agent.SyncSchedule.{delta_to_this_sync_slot_end}
use sleep_sync_agent.Agent.SyncSlot.{decide_kind, end_listen}
use sleep_sync_agent.Base.{List, [], arith, refl, ◌>>=◌, ◌∷◌, ◌≡◌}
use sleep_sync_agent.Examples.{seven, slave_seven}
use sleep_sync_agent.Examples.Periods.{arrival_of_three, garbled}
use sleep_sync_agent.Examples.Tasks.{answers}
use sleep_sync_agent.Former.{Wake, brownout_warning, msg_received, sleep_timer_expired}
use sleep_sync_agent.Former.Listening.{perform_sync_slot-receive}
use sleep_sync_agent.Former.Sleeper.{check_overslept}
use sleep_sync_agent.Former.SyncSlot.{Part, Slot, perform_sync_slot}

-- A warning, a garbled packet, a sync of unit 3, and then the timer, which comes too late to matter.
abbrev wakes : List Wake
wakes =
    record { reason = brownout_warning; elapsed = 5 }
    ∷ record { reason = msg_received garbled; elapsed = 10 }
    ∷ record { reason = msg_received arrival_of_three; elapsed = 20 }
    ∷ record { reason = sleep_timer_expired; elapsed = 40 }
    ∷ []

abbrev part : Part
part = record { power = answers.power; now = 100010; wakes = wakes }

abbrev slot : Slot
slot = record {
  power = answers.power;
  at_start = answers;
  first_half = part;
  at_send = answers;
  second_half = part;
  now_at_end = 100050;
}

perform_sync_slot-receive_example : perform_sync_slot seven slave_seven slot ≡ (
    receive
      (sync_slot_handler seven)
      (record slave_seven { sync_slot_kind = listen })
      (garbled ∷ arrival_of_three ∷ [])
    >>= λ r. end_listen seven r.0 100050)
unfolding check_overslept decide_kind should_transmit_sync should_send_control_sync
    delta_to_this_sync_slot_end
perform_sync_slot-receive_example =
    perform_sync_slot-receive seven slave_seven slave_seven slot refl (ground arith)
      (ground arith, (ground arith, (ground arith, (ground arith, tt))))
