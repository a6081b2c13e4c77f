-- ===== src/Examples/Tasks.antt =====
-- Examples of the properties of tasks.

use sleep_sync_agent.Agent.{
  Agent, end_sync_slot_send, merger, merger_start_and_end, send_sync_task,
  start_sync_slot_without_scheduled_prelude,
}
use sleep_sync_agent.Agent.Behaviour.{filter_sync_msg}
use sleep_sync_agent.Agent.Control.{check_done_and_enact, enact, should_send_control_sync}
use sleep_sync_agent.Agent.Control.Demoted.{demoted_enact-failed}
use sleep_sync_agent.Agent.Mastership.{
  heard_sync, reset_transmit_sync_policy, set_self_mastership, should_transmit_sync,
  update_by_sync_message, update_mastership,
}
use sleep_sync_agent.Agent.Merging.{
  check_completion_of_merger_role, delta_merge_slot_end_to_sync_point, is_merger_end_sync_period,
  make_merge_msg,
}
use sleep_sync_agent.Agent.Reversion.{grab_mastership, scatter_sync}
use sleep_sync_agent.Agent.Sender.{send_merge_sync}
use sleep_sync_agent.Agent.SyncSchedule.{
  delta_to_this_sync_slot_middle_subslot, start_sync_slot_with_prelude_done, sync_send_task,
  sync_slot_after_merging,
}
use sleep_sync_agent.Agent.SyncSlot.{
  Answers, decide_kind, dispatch_sync_slot_kind, prelude_to_sync_period,
}
use sleep_sync_agent.Agent.Tasks.{run, run_merger_start_and_end}
use sleep_sync_agent.Agent.Tasks.LastRepeat.{last_scatter-failed}
use sleep_sync_agent.Agent.Tasks.MergeSlot.{HasMerged, run_merger-HasMerged}
use sleep_sync_agent.Agent.Tasks.Merging.{late_merger-failed}
use sleep_sync_agent.Agent.Tasks.OneNext.{OneNext, next_task}
use sleep_sync_agent.Agent.Tasks.Prelude.{run-OneNext}
use sleep_sync_agent.Base.{Succeeds, arith, failed, false, refl, some, true, ◌≡◌}
use sleep_sync_agent.Clique.DropoutMonitor.{reset_dropout}
use sleep_sync_agent.Clique.XmitPolicy.{advance_stage, policy_should_transmit_sync}
use sleep_sync_agent.Examples.{
  empty_message, fishing_seven, master_seven, ok_or, seven, sync_of_three,
}
use sleep_sync_agent.Examples.Messages.{joined, seven-IsReady}
use sleep_sync_agent.Fishing.Manager.{restart_trolling_mode}
use sleep_sync_agent.Fishing.Trolling.{restart}
use sleep_sync_agent.Message.{control_scatter_clique, does_carry_sync, merge_other}
use sleep_sync_agent.Message.MessageFactory.{init_merge_sync_message}
use sleep_sync_agent.Network.SendRepeater.{
  check_done_and_enact_control, on_done_scatter, should_send,
}
use sleep_sync_agent.Schedule.{
  adjust, adjust_by_sync_msg, adjust_with_random_added_time, adjusted_event_time_from_msg,
  adjusted_sync_period_end_time_from_msg, delta_now_to_next_sync_point,
  delta_now_to_next_unadjusted_sync_point,
}
use sleep_sync_agent.TimeMath.{reference_time-TimeLaws}

abbrev pub answers : Answers
answers = record {
  now = 100050;
  power = record { is_above_ultra_low = true; is_above_medium = true; is_at_least_2_7 = false };
  alarm = true;
  sync_toss = true;
  control_toss = true;
  merge_toss = true;
  random_offset = 12345;
  is_mail = false;
  mail = 0;
  message = empty_message;
  is_provisioner_started = false;
}

run-OneNext_example :
    OneNext
      (record fishing_seven { is_prelude_started = true })
      (run seven (record fishing_seven { is_prelude_started = true }) answers end_sync_slot_send)
run-OneNext_example =
    run-OneNext seven (record fishing_seven { is_prelude_started = true }) answers
      end_sync_slot_send refl (λ e. ground arith) (λ e. refl)

-- A merger whose merge slot is near the end of the period, with the prelude off.
abbrev late_merger : Agent
late_merger = record fishing_seven {
  role = merger;
  count_sent_merge_syncs = 2;
  clique_merger = record {
    is_merging = true;
    period_time_to_merge_slot_start = 79900;
    superior_master_id = 7;
    inferior_master_id = 9;
    kind_of_merger = merge_other;
  };
}

abbrev merged : Agent
merged = ok_or (run seven late_merger answers merger_start_and_end) late_merger

run_merger-HasMerged_example :
    Succeeds
      (HasMerged seven late_merger answers.now)
      (run seven late_merger answers merger_start_and_end)
run_merger-HasMerged_example =
    run_merger-HasMerged seven late_merger answers reference_time-TimeLaws
      (seven-IsReady late_merger refl refl refl refl refl
        (record { active_iff_merger = refl; fishing_iff_mode = refl }))
      refl (ground arith) (ground arith) (ground arith)

late_merger-failed_example :
    (next_task merged ≡ some start_sync_slot_without_scheduled_prelude)
    × (run seven merged answers start_sync_slot_without_scheduled_prelude ≡ failed)
unfolding run run_merger_start_and_end send_merge_sync make_merge_msg init_merge_sync_message
    delta_now_to_next_unadjusted_sync_point check_completion_of_merger_role sync_slot_after_merging
    is_merger_end_sync_period delta_merge_slot_end_to_sync_point start_sync_slot_with_prelude_done
    delta_now_to_next_sync_point
late_merger-failed_example =
    late_merger-failed seven late_merger merged answers answers refl refl refl

-- A master that is about to send the last repeat of a scatter message.
abbrev scattering_seven : Agent
scattering_seven = record master_seven {
  repeater = record {
    is_active = true;
    message_type = control_scatter_clique;
    a_value = 1;
    on_done_callback = on_done_scatter;
    repeater_counter = 4;
  };
}

abbrev scattered_seven : Agent
scattered_seven = ok_or (dispatch_sync_slot_kind seven scattering_seven answers) scattering_seven

last_scatter-failed_example : run seven scattered_seven answers send_sync_task ≡ failed
unfolding dispatch_sync_slot_kind decide_kind should_transmit_sync should_send_control_sync
    should_send check_done_and_enact check_done_and_enact_control enact scatter_sync grab_mastership
    restart_trolling_mode adjust_with_random_added_time adjust sync_send_task
    policy_should_transmit_sync restart set_self_mastership reset_transmit_sync_policy
    delta_to_this_sync_slot_middle_subslot
last_scatter-failed_example =
    last_scatter-failed seven scattering_seven scattered_seven answers answers
      reference_time-TimeLaws refl refl refl refl (ground arith) (ground arith) (ground arith)
      (ground arith) refl

-- The same master hears unit 3 before that.
demoted_enact-failed_example :
    dispatch_sync_slot_kind seven (prelude_to_sync_period (joined scattering_seven)) answers
    ≡ failed
unfolding filter_sync_msg update_by_sync_message update_mastership heard_sync does_carry_sync
    adjust_by_sync_msg adjusted_sync_period_end_time_from_msg adjusted_event_time_from_msg adjust
    reset_dropout advance_stage
demoted_enact-failed_example =
    demoted_enact-failed seven scattering_seven (joined scattering_seven) answers sync_of_three
      100030 true refl refl (λ e. ground arith) refl (ground arith) refl refl
