-- ===== src/Examples/Messages.antt =====
-- Examples of the properties of sending, receiving and merging.

use sleep_sync_agent.Agent.{Agent, Platform, merger}
use sleep_sync_agent.Agent.Behaviour.{filter_sync_msg}
use sleep_sync_agent.Agent.Behaviour.Better.{filter_sync_msg-keeps_merger}
use sleep_sync_agent.Agent.Control.{
  handle_net_granularity_provisioning, handle_scatter_provisioning, provision_work_cycle,
  provision_work_time,
}
use sleep_sync_agent.Agent.Control.Upstream.{Sends, provision_work-failed, provisioning-Sends}
use sleep_sync_agent.Agent.Mastership.{heard_sync, update_by_sync_message, update_mastership}
use sleep_sync_agent.Agent.Merging.{
  adjusted_raw_time_to_merge_clique, init_from_msg, init_merge_other_clique,
  middle_of_next_sync_slot_of_catch, next_sync_point_of_fisher, period_time_to_merge_other_clique,
  set_period_time, to_merger_from_fisher,
}
use sleep_sync_agent.Agent.Merging.Aligned.{
  FitsPeriod, merge_other-aligns, to_merger_from_fisher-FitsPeriod,
}
use sleep_sync_agent.Agent.Modes.Consistent.{IsConsistent}
use sleep_sync_agent.Agent.Receiver.Joining.{HasJoined, over_the_air, over_the_air-aligns}
use sleep_sync_agent.Agent.Receiver.Slot.{heard}
use sleep_sync_agent.Agent.Receiver.Total.{IsReady}
use sleep_sync_agent.Agent.Reversion.Dropout.{IsMember}
use sleep_sync_agent.Agent.Roles.{to_merger}
use sleep_sync_agent.Agent.Sender.{send_control_sync}
use sleep_sync_agent.Base.{
  Bool, Checked, ap, arith, failed, ok, refl, subst, sym, true, ◌%◌, ◌+◌, ◌≡◌, ◌⊎◌,
}
use sleep_sync_agent.Clique.CliqueHistory.{init_history}
use sleep_sync_agent.Clique.DropoutMonitor.{reset_dropout}
use sleep_sync_agent.Clique.XmitPolicy.{advance_stage}
use sleep_sync_agent.Examples.{
  blank, empty_message, fishing_seven, fresh_schedule, fresh_schedule-IsScheduled, master_seven,
  ok_or, seven, slave_seven, sync_of_three,
}
use sleep_sync_agent.Fishing.Trolling.{initial_trolling}
use sleep_sync_agent.Fishing.Trolling.InRange.{IsTrolling, initial_trolling-IsTrolling}
use sleep_sync_agent.Message.{
  SyncMessage, control_scatter_clique, does_carry_sync, master_sync, time_of_transmittal,
}
use sleep_sync_agent.Network.Granularity.{get_from_raw, get_raw}
use sleep_sync_agent.Params.{normal_sync_period_duration, nrf52}
use sleep_sync_agent.Schedule.{
  Schedule, adjust, adjust_by_sync_msg, adjusted_event_time_from_msg,
  adjusted_sync_period_end_time_from_msg, delta_now_to_next_sync_point,
}
use sleep_sync_agent.Schedule.Adjusting.{IsScheduled}
use sleep_sync_agent.Schedule.SyncOffset.{calculate}
use sleep_sync_agent.TimeMath.{reference_time, reference_time-TimeLaws}

abbrev pub three : Platform
three = record seven { system_id = 3 }

-- The master of the better clique, in a period of its own.
abbrev pub master_three : Agent
master_three = record master_seven {
  clique_master_id = 3;
  history = init_history master_seven.history 3;
  schedule = record {
    start_time_of_sync_period = 500000;
    unadjusted_end_time_of_sync_period = 580000;
    end_time_of_sync_period = 580000;
  };
}

over_the_air-aligns_example :
    (t : Schedule) × HasJoined 3 t (
      over_the_air three seven master_three master_seven empty_message empty_message blank 500026
        130000 130001)
    × IsScheduled t
    × ((t.end_time_of_sync_period + 400000 ≡ 580000 + 29970)
        ⊎ (t.end_time_of_sync_period + 400000 ≡ 580000 + 29970 + normal_sync_period_duration))
over_the_air-aligns_example =
    over_the_air-aligns three seven master_three master_seven empty_message empty_message blank
      500026 130000 130001 400000 29970 reference_time-TimeLaws (ground arith) (ground arith)
      fresh_schedule-IsScheduled refl (ground arith) (ground arith) (ground arith) (ground arith)
      (ground arith) (ground arith)

-- Unit 7 in its own clique, in the fresh period, whatever it is about to do.
seven-IsMember :
    (a : Agent)
    → a.history ≡ master_seven.history
    → a.clique_master_id ≡ 7
    → a.count_sync_slots_without_sync_msg ≡ 0
    → a.fishing.troll ≡ initial_trolling
    → IsMember seven a
unfolding init_history
seven-IsMember a h c n t = record {
  first_is_self = ap (λ u. (u.clique_records 0).master_id) h;
  index_in_range = ground arith;
  slave_has_former = λ e. ground arith;
  few_missed = ground arith;
  trolls = subst IsTrolling (sym t) initial_trolling-IsTrolling;
}

pub seven-IsReady :
    (a : Agent)
    → a.history ≡ master_seven.history
    → a.clique_master_id ≡ 7
    → a.count_sync_slots_without_sync_msg ≡ 0
    → a.fishing.troll ≡ initial_trolling
    → a.schedule ≡ fresh_schedule
    → IsConsistent a
    → IsReady seven a
seven-IsReady a h c n t s v = record {
  sound = record { member = seven-IsMember a h c n t; consistent = v };
  scheduled = subst IsScheduled (sym s) fresh_schedule-IsScheduled;
  early = ground arith;
  never_worse = ground arith;
}

abbrev pub handled_or : Checked (Agent × Bool) → Agent → Agent
handled_or (ok (a, heard)) b = a
handled_or failed b = b

-- The unit that is to become a slave of unit 3.
abbrev pub joined : Agent → Agent
joined a = handled_or (filter_sync_msg seven a sync_of_three 100030) a

abbrev merging_seven : Agent
merging_seven = record fishing_seven { role = merger }

filter_sync_msg-keeps_merger_example :
    ((joined merging_seven).role ≡ merger)
    × ((joined merging_seven).clique_merger ≡ merging_seven.clique_merger)
unfolding filter_sync_msg update_by_sync_message update_mastership heard_sync does_carry_sync
    adjust_by_sync_msg adjusted_sync_period_end_time_from_msg adjusted_event_time_from_msg adjust
    reset_dropout advance_stage
filter_sync_msg-keeps_merger_example =
    filter_sync_msg-keeps_merger seven merging_seven (joined merging_seven) sync_of_three 100030
      true refl

-- The fisher that has caught a message of unit 9, which is in the inferior clique.
abbrev sync_of_nine : SyncMessage
sync_of_nine = record sync_of_three { master_id = 9 }

abbrev caught : Agent
caught = ok_or (to_merger_from_fisher seven fishing_seven sync_of_nine 130000) fishing_seven

to_merger_from_fisher-FitsPeriod_example : FitsPeriod seven caught.clique_merger
unfolding to_merger_from_fisher to_merger init_from_msg init_merge_other_clique set_period_time
    period_time_to_merge_other_clique middle_of_next_sync_slot_of_catch next_sync_point_of_fisher
    time_of_transmittal adjusted_raw_time_to_merge_clique does_carry_sync
to_merger_from_fisher-FitsPeriod_example =
    to_merger_from_fisher-FitsPeriod seven fishing_seven caught sync_of_nine 130000 refl

merge_other-aligns_example :
    (180000 + period_time_to_merge_other_clique seven fishing_seven 130000 + 54)
      % normal_sync_period_duration
    ≡ 129990 % normal_sync_period_duration
merge_other-aligns_example =
    merge_other-aligns seven fishing_seven 130000 reference_time-TimeLaws (ground arith)
      (ground arith) (ground arith) (ground arith) (ground arith)

provisioning-Sends_example :
    Sends master_seven master_sync 1 (calculate reference_time nrf52 fresh_schedule 100026) (
      send_control_sync seven
        (handle_net_granularity_provisioning seven master_seven 1)
        empty_message
        100026)
    × Sends master_seven control_scatter_clique 1
        (calculate reference_time nrf52 fresh_schedule 100026)
        (send_control_sync seven
          (handle_scatter_provisioning seven master_seven)
          empty_message
          100026)
unfolding get_from_raw get_raw calculate delta_now_to_next_sync_point
provisioning-Sends_example =
    provisioning-Sends seven master_seven empty_message 1 100026 refl (λ e. ground arith)
      (ground arith)

provision_work-failed_example :
    (send_control_sync seven (provision_work_time seven (λ n. n) slave_seven 5) empty_message 100026
      ≡ failed)
    × (send_control_sync seven (provision_work_cycle seven slave_seven 5) empty_message 100026
        ≡ failed)
provision_work-failed_example =
    provision_work-failed seven (λ n. n) slave_seven empty_message 5 100026 refl refl
