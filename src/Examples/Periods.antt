-- ===== src/Examples/Periods.antt =====
-- Examples of the properties of whole sync slots and sync periods.

use mathlib.Mathlib.Data.Multiset.Defs.{of_list}
use mathlib.Core.List.Permᴰ
use sleep_sync_agent.Agent.{Agent}
use sleep_sync_agent.Agent.Behaviour.{filter_sync_msg}
use sleep_sync_agent.Agent.Behaviour.Agreement.{Hears, Hears-agree, Hears-best, best, silence, sync}
use sleep_sync_agent.Agent.Behaviour.FishSlotHandler.{handle_in_fish_slot}
use sleep_sync_agent.Agent.Behaviour.SyncSlotHandler.{
  HandlingResult, handle_granularity_aspect, handle_in_sync_slot, handle_sync_aspect,
  keep_listening, stop_listening_heard_master_sync,
}
use sleep_sync_agent.Agent.Mastership.{heard_sync, update_by_sync_message, update_mastership}
use sleep_sync_agent.Agent.Receiver.Answered.{
  handle_in_fish_slot-HandledReady, handle_in_sync_slot-HandledReady,
}
use sleep_sync_agent.Agent.Receiver.Slot.{Arrival, fish_slot_handler, receive, sync_slot_handler}
use sleep_sync_agent.Agent.Receiver.Slot.Answered.{
  AreHearable, IsCatchable, receive-IsReady, receive_fish-IsReady,
}
use sleep_sync_agent.Agent.Receiver.Slot.Listening.{AllArrivals}
use sleep_sync_agent.Agent.Receiver.Steps.{IsSound}
use sleep_sync_agent.Agent.Receiver.Total.{HandledReady, IsReady}
use sleep_sync_agent.Base.{
  Checked, Succeeds, [], arith, failed, false, inl, inr, ok, refl, true, ◌∷◌, ◌≡◌, ◌⊎◌,
}
use sleep_sync_agent.Clique.CliqueHistory.{init_history}
use sleep_sync_agent.Clique.DropoutMonitor.{reset_dropout}
use sleep_sync_agent.Clique.XmitPolicy.{advance_stage}
use sleep_sync_agent.Examples.{
  blank, empty_message, fishing_seven, fresh_schedule, fresh_schedule-IsScheduled, master_seven,
  seven, sync_of_three,
}
use sleep_sync_agent.Examples.Messages.{master_three, seven-IsReady, three}
use sleep_sync_agent.Fishing.Trolling.InRange.{initial_trolling-IsTrolling}
use sleep_sync_agent.Message.{
  SyncMessage, does_carry_sync, message_type_from_raw, raw_of_message_type,
}
use sleep_sync_agent.Message.Serializer.{
  copy_from, copy_to, serialize, serialize_master_id, serialize_offset, serialize_type,
  serialize_work, unserialize_offset, unserialize_type,
}
use sleep_sync_agent.Network.Granularity.{get_from_raw, get_raw, try_set_granularity}
use sleep_sync_agent.Schedule.{
  adjust, adjust_by_sync_msg, adjusted_event_time_from_msg, adjusted_sync_period_end_time_from_msg,
}
use sleep_sync_agent.Schedule.Adjusting.{IsScheduled}
use sleep_sync_agent.Schedule.Heeding.{Heeds, adjust_by_sync_msg_iff}

pub master_seven-IsReady : IsReady seven master_seven
master_seven-IsReady =
    seven-IsReady master_seven refl refl refl refl refl
      (record { active_iff_merger = refl; fishing_iff_mode = refl })

fishing_seven-IsReady : IsReady seven fishing_seven
fishing_seven-IsReady =
    seven-IsReady fishing_seven refl refl refl refl refl
      (record { active_iff_merger = refl; fishing_iff_mode = refl })

handle_in_sync_slot-HandledReady_example :
    HandledReady seven (handle_in_sync_slot seven master_seven sync_of_three 100030 100031 0)
unfolding does_carry_sync
handle_in_sync_slot-HandledReady_example =
    handle_in_sync_slot-HandledReady seven master_seven sync_of_three 100030 100031 0
      master_seven-IsReady (ground arith) (ground arith)

handle_in_fish_slot-HandledReady_example :
    HandledReady seven (handle_in_fish_slot seven fishing_seven sync_of_three 130000)
unfolding does_carry_sync
handle_in_fish_slot-HandledReady_example =
    handle_in_fish_slot-HandledReady seven fishing_seven sync_of_three 130000 fishing_seven-IsReady
      (inl refl) (ground arith)

adjust_by_sync_msg_iff_example :
    (Heeds fresh_schedule 100030 40000
      × (adjust_by_sync_msg fresh_schedule 100030 40000
          ≡ ok (record fresh_schedule { end_time_of_sync_period = 220030 }))
      × IsScheduled (record fresh_schedule { end_time_of_sync_period = 220030 }))
    ⊎ ((¬ Heeds fresh_schedule 100030 40000)
        × (adjust_by_sync_msg fresh_schedule 100030 40000 ≡ failed))
adjust_by_sync_msg_iff_example =
    adjust_by_sync_msg_iff fresh_schedule 100030 40000 fresh_schedule-IsScheduled (ground arith)
      (ground arith) (ground arith)

-- The sync of unit 3 as it arrives, and a packet that was garbled.
abbrev pub arrival_of_three : Arrival
arrival_of_three = record {
  crc_valid = true;
  buffer = serialize sync_of_three blank;
  message = empty_message;
  toa = 100030;
  now = 100031;
  random_offset = 0;
}

abbrev pub garbled : Arrival
garbled = record arrival_of_three { crc_valid = false }

arrivals-AreHearable : AreHearable fresh_schedule (garbled ∷ arrival_of_three ∷ [])
unfolding serialize unserialize_type unserialize_offset message_type_from_raw does_carry_sync
    raw_of_message_type copy_to copy_from serialize_type serialize_offset serialize_master_id
    serialize_work
arrivals-AreHearable =
    ((inl refl, ground arith), ((inr (ground arith, refl, inr (ground arith)), ground arith), tt))

receive-IsReady_example :
    Succeeds
      (λ r. IsReady seven r.0)
      (receive (sync_slot_handler seven) master_seven (garbled ∷ arrival_of_three ∷ []))
receive-IsReady_example =
    receive-IsReady seven master_seven (garbled ∷ arrival_of_three ∷ []) master_seven-IsReady
      arrivals-AreHearable

arrivals-AreCatchable : AllArrivals (IsCatchable fresh_schedule) (garbled ∷ arrival_of_three ∷ [])
unfolding serialize unserialize_type unserialize_offset message_type_from_raw does_carry_sync
    raw_of_message_type copy_to copy_from serialize_type serialize_offset serialize_master_id
    serialize_work
arrivals-AreCatchable = (inl refl, (inr (ground arith, inr (ground arith)), tt))

receive_fish-IsReady_example :
    Succeeds
      (λ r. IsReady seven r.0)
      (receive (fish_slot_handler seven) fishing_seven (garbled ∷ arrival_of_three ∷ []))
receive_fish-IsReady_example =
    receive_fish-IsReady seven fishing_seven (garbled ∷ arrival_of_three ∷ []) fishing_seven-IsReady
      (inl refl) arrivals-AreCatchable

abbrev after : Checked (Agent × HandlingResult) → Agent → Agent
after (ok (a, result)) b = a
after failed b = b

-- Unit 7 that has heard unit 3, and unit 3 that has heard unit 7.
abbrev follower : Agent
follower = after (handle_in_sync_slot seven master_seven sync_of_three 100030 100031 0) master_seven

abbrev sync_of_seven : SyncMessage
sync_of_seven = record sync_of_three { master_id = 7 }

abbrev leader : Agent
leader = after (handle_in_sync_slot three master_three sync_of_seven 500030 500031 0) master_three

master_three-IsSound : IsSound three master_three
unfolding init_history
master_three-IsSound = record {
  member = record {
    first_is_self = refl;
    index_in_range = ground arith;
    slave_has_former = λ e. ground arith;
    few_missed = ground arith;
    trolls = initial_trolling-IsTrolling;
  };
  consistent = record { active_iff_merger = refl; fishing_iff_mode = refl };
}

follower-Hears : Hears seven master_seven 7 (3 ∷ []) follower
unfolding handle_in_sync_slot handle_granularity_aspect handle_sync_aspect filter_sync_msg
    update_by_sync_message update_mastership heard_sync does_carry_sync adjust_by_sync_msg
    adjusted_sync_period_end_time_from_msg adjusted_event_time_from_msg adjust reset_dropout
    advance_stage get_from_raw get_raw try_set_granularity
follower-Hears =
    sync sync_of_three 100030 100031 0 stop_listening_heard_master_sync (inl refl) silence refl

leader-Hears : Hears three master_three 3 (7 ∷ []) leader
unfolding handle_in_sync_slot handle_granularity_aspect handle_sync_aspect filter_sync_msg
    update_by_sync_message update_mastership heard_sync does_carry_sync adjust_by_sync_msg
    adjusted_sync_period_end_time_from_msg adjusted_event_time_from_msg adjust reset_dropout
    advance_stage get_from_raw get_raw try_set_granularity
leader-Hears = sync sync_of_seven 500030 500031 0 keep_listening (inl refl) silence refl

Hears-best_example : follower.clique_master_id ≡ best 7 (of_list (3 ∷ []))
Hears-best_example = Hears-best master_seven-IsReady.sound follower-Hears

Hears-agree_example : follower.clique_master_id ≡ leader.clique_master_id
Hears-agree_example =
    Hears-agree master_seven-IsReady.sound master_three-IsSound follower-Hears leader-Hears
      (λ id. (Permᴰ.mem (Permᴰ.swap refl refl), Permᴰ.mem (Permᴰ.swap refl refl)))
