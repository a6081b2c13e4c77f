-- ===== src/Examples/Loop.antt =====
-- Examples of the properties of the loop of tasks.

use sleep_sync_agent.Agent.{
  Agent, end_sync_slot_send, fish_slot_end, fish_slot_start, prelude_w_fish, prelude_w_sync,
  sync_only,
}
use sleep_sync_agent.Agent.SyncSchedule.{
  do_prelude, schedule_fish_slot_end, start_fish_slot_from_prelude_start,
}
use sleep_sync_agent.Agent.SyncSlot.{Answers}
use sleep_sync_agent.Agent.Tasks.{run, run_fish_slot_start}
use sleep_sync_agent.Agent.Tasks.Chain.{Chain, Chain-short, followed, last}
use sleep_sync_agent.Agent.Tasks.FishPeriod.{
  Fishings, HasSynced, IsFishable, fish_period, fish_period-IsFished,
}
use sleep_sync_agent.Agent.Tasks.FishSlot.{IsFished}
use sleep_sync_agent.Agent.Tasks.Graph.{NextIn, may_follow, run-may_follow}
use sleep_sync_agent.Agent.Tasks.SyncPeriod.{
  IsOrdinary, Meetings, SyncsFrom, sync_period, sync_period-SyncsFrom,
}
use sleep_sync_agent.Agent.Tasks.Syncing.{IsSyncing}
use sleep_sync_agent.Base.{
  Checked, Succeeds, [], arith, failed, false, inr, length, ok, refl, true, ◌∷◌, ◌≤◌,
}
use sleep_sync_agent.Clique.CliqueHistory.{init_history}
use sleep_sync_agent.Examples.{fishing_seven, fresh_schedule, master_seven, ok_or, seven}
use sleep_sync_agent.Examples.Messages.{seven-IsReady}
use sleep_sync_agent.Examples.Periods.{arrival_of_three}
use sleep_sync_agent.Examples.Tasks.{answers}
use sleep_sync_agent.Fishing.Trolling.{
  Trolling, decrement_counter, increment_counter, pre_fishing, proceed_to_next_fish_slot_ordinal,
  set_session_for_start_slot,
}
use sleep_sync_agent.Message.{does_carry_sync, message_type_from_raw, raw_of_message_type}
use sleep_sync_agent.Message.Serializer.{
  copy_from, copy_to, serialize, serialize_master_id, serialize_offset, serialize_type,
  serialize_work, unserialize_offset, unserialize_type,
}
use sleep_sync_agent.Schedule.{roll_period_forward}
use sleep_sync_agent.TimeMath.{reference_time-TimeLaws}

run-may_follow_example :
    NextIn
      (may_follow end_sync_slot_send)
      (run seven (record fishing_seven { is_prelude_started = true }) answers end_sync_slot_send)
run-may_follow_example =
    run-may_follow seven (record fishing_seven { is_prelude_started = true }) answers
      end_sync_slot_send (λ e. ground arith) (λ e. refl)

-- A fishing session, as far as the end of its slot.
abbrev fishing_started : Agent
fishing_started = ok_or (run seven fishing_seven answers prelude_w_fish) fishing_seven

abbrev fishing_begun : Agent
fishing_begun = ok_or (run seven fishing_started answers fish_slot_start) fishing_started

fishing-Chain : Chain seven prelude_w_fish (fish_slot_start ∷ fish_slot_end ∷ [])
unfolding run do_prelude start_fish_slot_from_prelude_start run_fish_slot_start
    schedule_fish_slot_end
fishing-Chain =
    followed fishing_seven fishing_started answers (λ e. ground arith) (λ e. refl) refl refl
      (followed fishing_started fishing_begun answers (λ e. ground arith) (λ e. refl) refl refl
        last)

Chain-short_example : length (fish_slot_start ∷ fish_slot_end ∷ []) ≤ 6
Chain-short_example =
    Chain-short seven prelude_w_fish (fish_slot_start ∷ fish_slot_end ∷ []) fishing-Chain
      (λ e. ground arith) refl

-- Unit 7, which only syncs, before its next period; it is to listen, and to hear unit 3.
abbrev pub syncing_seven : Agent
syncing_seven = record master_seven { mode = sync_only; scheduled = (prelude_w_sync, 40000) ∷ [] }

abbrev pub weak : Answers
weak = record answers {
  power = record { is_above_ultra_low = true; is_above_medium = false; is_at_least_2_7 = false };
  sync_toss = false;
}

abbrev meetings : Meetings
meetings = record {
  at_prelude = record weak { now = 179950 };
  at_start = record weak { now = 180000 };
  at_send = record weak { now = 180025 };
  at_end = record weak { now = 180050 };
  arrivals = record arrival_of_three { toa = 180030 } ∷ [];
}

meetings-IsOrdinary : IsOrdinary (roll_period_forward fresh_schedule) meetings
unfolding roll_period_forward serialize unserialize_type unserialize_offset message_type_from_raw
    does_carry_sync raw_of_message_type copy_to copy_from serialize_type serialize_offset
    serialize_master_id serialize_work
meetings-IsOrdinary = record {
  power = refl;
  sends_after = ground arith;
  sends_before = ground arith;
  ends_after = ground arith;
  ends_before = ground arith;
  hearable = ((inr (ground arith, refl, inr (ground arith)), ground arith), tt);
  no_orders = (refl, tt);
}

pub syncing_seven-IsSyncing : IsSyncing seven prelude_w_sync syncing_seven
unfolding init_history
syncing_seven-IsSyncing = record {
  ready =
      seven-IsReady syncing_seven refl refl refl refl refl
        (record { active_iff_merger = refl; fishing_iff_mode = refl });
  only_syncs = refl;
  prelude = refl;
  comes_next = refl;
  calm = refl;
}

sync_period-SyncsFrom_example :
    Succeeds (SyncsFrom seven 180000 1) (sync_period seven syncing_seven meetings)
sync_period-SyncsFrom_example =
    sync_period-SyncsFrom seven syncing_seven meetings reference_time-TimeLaws
      syncing_seven-IsSyncing (ground arith) (ground arith) meetings-IsOrdinary

-- The fisher 7 that has sent its sync, before its next session, of slot 3, in which it hears unit 3.
abbrev synced_seven : Agent
synced_seven = record fishing_seven {
  is_prelude_started = true;
  scheduled = (end_sync_slot_send, 50) ∷ [];
}

abbrev fishings : Fishings
fishings = record {
  at_slot_end = record answers { now = 100050 };
  at_prelude = record answers { now = 100060 };
  at_start = record answers { now = 100100 };
  at_end = record answers { now = 100151 };
  arrivals = record arrival_of_three { toa = 100120 } ∷ [];
}

abbrev trolling_or : Checked Trolling → Trolling → Trolling
trolling_or (ok t) u = t
trolling_or failed u = u

abbrev next_trolling : Trolling
next_trolling = trolling_or (pre_fishing synced_seven.fishing.troll) synced_seven.fishing.troll

synced_seven-HasSynced : HasSynced seven synced_seven
unfolding init_history
synced_seven-HasSynced = record {
  ready =
      seven-IsReady synced_seven refl refl refl refl refl
        (record { active_iff_merger = refl; fishing_iff_mode = refl });
  fishes = refl;
  is_fishing = refl;
  trolls = refl;
  prelude = refl;
  few_missed = ground arith;
  comes_next = inr refl;
}

fishings-IsFishable : IsFishable fresh_schedule next_trolling.current_end_slot_ordinal fishings
unfolding pre_fishing increment_counter decrement_counter set_session_for_start_slot serialize
    unserialize_type unserialize_offset message_type_from_raw does_carry_sync raw_of_message_type
    copy_to copy_from serialize_type serialize_offset serialize_master_id serialize_work
    proceed_to_next_fish_slot_ordinal
fishings-IsFishable = record {
  power = refl;
  slot_ends_after = ground arith;
  slot_ends_before = ground arith;
  ends_after = ground arith;
  ends_before = ground arith;
  catchable = (inr (ground arith, inr (ground arith)), tt);
}

fish_period-IsFished_example :
    Succeeds (IsFished seven 100000) (fish_period seven synced_seven fishings)
unfolding pre_fishing increment_counter decrement_counter set_session_for_start_slot
    proceed_to_next_fish_slot_ordinal
fish_period-IsFished_example =
    fish_period-IsFished seven next_trolling synced_seven fishings reference_time-TimeLaws
      synced_seven-HasSynced refl fishings-IsFishable
