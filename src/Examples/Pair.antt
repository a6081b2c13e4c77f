-- ===== src/Examples/Pair.antt =====
-- Examples of the properties of two units and their periods.

use sleep_sync_agent.Agent.{Agent, prelude_w_sync, sync_only}
use sleep_sync_agent.Agent.Receiver.Slot.{Arrival}
use sleep_sync_agent.Agent.Tasks.Exchange.{exchange}
use sleep_sync_agent.Agent.Tasks.Exchange.Answering.{IsAnswering}
use sleep_sync_agent.Agent.Tasks.Exchange.Called.{IsCalling}
use sleep_sync_agent.Agent.Tasks.Exchange.Joined.{HaveMet, IsPhased}
use sleep_sync_agent.Agent.Tasks.Exchange.Meeting.{exchange-HaveMet_in_phase}
use sleep_sync_agent.Agent.Tasks.Exchange.Round.{AreInStep, AreRounds, Round, rounds}
use sleep_sync_agent.Agent.Tasks.Exchange.Rounds.{rounds-AreInStep}
use sleep_sync_agent.Agent.Tasks.SyncPeriod.{Meetings}
use sleep_sync_agent.Agent.Tasks.Syncing.{IsSyncing}
use sleep_sync_agent.Base.{
  Bool, List, Succeeds, [], arith, false, inr, length, refl, true, ℕ, ◌*◌, ◌+◌, ◌-◌, ◌∷◌,
}
use sleep_sync_agent.Clique.CliqueHistory.{init_history, initial_history}
use sleep_sync_agent.Examples.{fresh_schedule, fresh_schedule-IsScheduled, seven, slave_seven}
use sleep_sync_agent.Examples.Loop.{syncing_seven, syncing_seven-IsSyncing, weak}
use sleep_sync_agent.Examples.Messages.{three}
use sleep_sync_agent.Examples.Periods.{arrival_of_three}
use sleep_sync_agent.Examples.Units.{slave_seven-IsMember}
use sleep_sync_agent.Fishing.Trolling.InRange.{initial_trolling-IsTrolling}
use sleep_sync_agent.Network.SendRepeater.{start}
use sleep_sync_agent.Params.{normal_sync_period_duration}
use sleep_sync_agent.Schedule.{Schedule, roll_period_forward}
use sleep_sync_agent.TimeMath.{reference_time-TimeLaws}

-- Unit 3, whose clock is far ahead, in its own clique, before its next period.
abbrev calling_three : Agent
calling_three = record syncing_seven {
  clique_master_id = 3;
  history = init_history initial_history 3;
  schedule = record {
    start_time_of_sync_period = 500000;
    unadjusted_end_time_of_sync_period = 580000;
    end_time_of_sync_period = 580000;
  };
}

calling_three-IsSyncing : IsSyncing three prelude_w_sync calling_three
unfolding init_history
calling_three-IsSyncing = record {
  ready = record {
    sound = record {
      member = record {
        first_is_self = refl;
        index_in_range = ground arith;
        slave_has_former = λ e. ground arith;
        few_missed = ground arith;
        trolls = initial_trolling-IsTrolling;
      };
      consistent = record { active_iff_merger = refl; fishing_iff_mode = refl };
    };
    scheduled = record {
      normal = ground arith;
      not_shortened = ground arith;
      not_too_long = ground arith;
    };
    early = ground arith;
    never_worse = ground arith;
  };
  only_syncs = refl;
  prelude = refl;
  comes_next = refl;
  calm = refl;
}

-- A period in which unit 3 sends, from its sync point on.
abbrev calls_at : ℕ → Meetings
calls_at start = record {
  at_prelude = record weak { now = start - 50; sync_toss = true };
  at_start = record weak { now = start; sync_toss = true };
  at_send = record weak { now = start + 21 };
  at_end = record weak { now = start + 50 };
  arrivals = [];
}

-- A period in which unit 7 listens.
abbrev listens_at : ℕ → Meetings
listens_at start = record (calls_at start) {
  at_start = record weak { now = start; sync_toss = false; alarm = false };
}

abbrev packet_at : ℕ → Bool → Arrival
packet_at time valid = record arrival_of_three { toa = time; now = time + 1; crc_valid = valid }

calls-IsCalling : IsCalling three (roll_period_forward calling_three.schedule) (calls_at 580000)
unfolding roll_period_forward
calls-IsCalling = record {
  power = refl;
  no_mail = refl;
  alarm = refl;
  toss = refl;
  sends_after = ground arith;
  sends_before = ground arith;
  ends_after = ground arith;
  ends_before = ground arith;
}

listens-IsAnswering :
    IsAnswering (roll_period_forward fresh_schedule) (listens_at 180000) (packet_at 180027 true)
unfolding roll_period_forward
listens-IsAnswering = record {
  power = refl;
  no_mail = refl;
  comes_after = ground arith;
  comes_before = ground arith;
  random_offset = ground arith;
  ends_after = ground arith;
  ends_before = ground arith;
}

exchange-HaveMet_in_phase_example :
    (t : Schedule) × IsPhased (roll_period_forward calling_three.schedule) t 400000 2
    × Succeeds (HaveMet three seven (roll_period_forward calling_three.schedule) t 1) (
        exchange three seven
          (calling_three, syncing_seven)
          (calls_at 580000)
          (listens_at 180000)
          (packet_at 180027 true))
exchange-HaveMet_in_phase_example =
    exchange-HaveMet_in_phase three seven calling_three syncing_seven (calls_at 580000)
      (listens_at 180000) (packet_at 180027 true) 400000 2 reference_time-TimeLaws
      reference_time-TimeLaws (ground arith) calling_three-IsSyncing refl (ground arith)
      calls-IsCalling syncing_seven-IsSyncing (ground arith) (ground arith) (inr (refl, refl))
      listens-IsAnswering refl (ground arith) refl

-- Unit 7 as a slave of unit 3, in step with it.
abbrev following_seven : Agent
following_seven = record slave_seven { mode = sync_only; scheduled = (prelude_w_sync, 40000) ∷ [] }

following_seven-IsSyncing : IsSyncing seven prelude_w_sync following_seven
following_seven-IsSyncing = record {
  ready = record {
    sound = record {
      member = record {
        first_is_self = slave_seven-IsMember.first_is_self;
        index_in_range = slave_seven-IsMember.index_in_range;
        slave_has_former = slave_seven-IsMember.slave_has_former;
        few_missed = slave_seven-IsMember.few_missed;
        trolls = slave_seven-IsMember.trolls;
      };
      consistent = record { active_iff_merger = refl; fishing_iff_mode = refl };
    };
    scheduled = fresh_schedule-IsScheduled;
    early = ground arith;
    never_worse = ground arith;
  };
  only_syncs = refl;
  prelude = refl;
  comes_next = refl;
  calm = refl;
}

-- Three periods; the packet of the second is garbled, and the master does not send in the third.
abbrev round_at : ℕ → Bool → Round
round_at start valid = record {
  sends = true;
  sender = calls_at (start + 400000);
  receiver = listens_at start;
  packet = packet_at (start + 25) valid;
}

abbrev silent_at : ℕ → Round
silent_at start = record (round_at start true) {
  sends = false;
  sender = listens_at (start + 400000);
}

abbrev three_rounds : List Round
three_rounds = round_at 180000 true ∷ round_at 260000 false ∷ silent_at 340000 ∷ []

rounds-AreRounds :
    AreRounds three seven calling_three.schedule fresh_schedule 0 400000 0 three_rounds
unfolding roll_period_forward
rounds-AreRounds = ground arith

rounds-AreInStep_example :
    Succeeds
      (AreInStep three seven 400000 0 (580000 + length three_rounds * normal_sync_period_duration))
      (rounds three seven (calling_three, following_seven) three_rounds)
rounds-AreInStep_example =
    rounds-AreInStep three seven calling_three following_seven three_rounds 0 400000 0
      reference_time-TimeLaws reference_time-TimeLaws (ground arith) (ground arith)
      (record {
        sender = calling_three-IsSyncing;
        master = refl;
        sent_on = refl;
        receiver = following_seven-IsSyncing;
        member = ((refl, ground arith), refl);
      })
      refl rounds-AreRounds
