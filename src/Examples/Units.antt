-- ===== src/Examples/Units.antt =====
-- Examples of the properties of a unit: its clique, mode, merger and control messages.

use sleep_sync_agent.Agent.{Agent, maintain, merger, sync_and_provision}
use sleep_sync_agent.Agent.Control.{handle_scatter_provisioning}
use sleep_sync_agent.Agent.Modes.{PowerReading, scatter_agent}
use sleep_sync_agent.Agent.Modes.Consistent.{IsConsistent}
use sleep_sync_agent.Agent.Modes.Cycle.{power_loss-maintain, provisions_every_seventh, transitions}
use sleep_sync_agent.Agent.Provisioning.{
  ProvisionedValue, Publisher, initial_publisher, subscribe_to_provisionings, succeed,
}
use sleep_sync_agent.Agent.Provisioning.Published.{succeed_lem}
use sleep_sync_agent.Agent.Reversion.{check_master_dropped_out}
use sleep_sync_agent.Agent.Reversion.Dropout.{
  BecomesMaster, IsMember, check_master_dropped_out-BecomesMaster, check_master_dropped_out-failed,
}
use sleep_sync_agent.Agent.SyncSchedule.{schedule_provision_end}
use sleep_sync_agent.Base.{arith, failed, false, ok, refl, true, ◌*◌, ◌+◌, ◌≡◌}
use sleep_sync_agent.Clique.CliqueHistory.{add, init_history}
use sleep_sync_agent.Examples.{fishing_seven, master_seven, ok_or, seven, slave_seven}
use sleep_sync_agent.Fishing.Trolling.InRange.{initial_trolling-IsTrolling}
use sleep_sync_agent.Message.{merge_other}

pub slave_seven-IsMember : IsMember seven slave_seven
unfolding init_history add
slave_seven-IsMember = record {
  first_is_self = refl;
  index_in_range = ground arith;
  slave_has_former = λ e. ground arith;
  few_missed = ground arith;
  trolls = initial_trolling-IsTrolling;
}

-- The slave after eighty silent sync slots.
abbrev lonely_seven : Agent
lonely_seven = record slave_seven { count_sync_slots_without_sync_msg = 80 }

lonely_seven-IsMember : IsMember seven lonely_seven
unfolding init_history add
lonely_seven-IsMember = record {
  first_is_self = refl;
  index_in_range = ground arith;
  slave_has_former = λ e. ground arith;
  few_missed = ground arith;
  trolls = initial_trolling-IsTrolling;
}

check_master_dropped_out-BecomesMaster_example :
    BecomesMaster seven lonely_seven (check_master_dropped_out seven lonely_seven 100050)
unfolding init_history add
check_master_dropped_out-BecomesMaster_example =
    check_master_dropped_out-BecomesMaster seven lonely_seven 100050 lonely_seven-IsMember refl refl
      refl

-- A unit that went from its own clique to that of unit 5, then to that of unit 3.
abbrev twice_moved : Agent
twice_moved = record lonely_seven { history = add (add master_seven.history 5 1) 3 1 }

twice_moved-IsMember : IsMember seven twice_moved
unfolding init_history add
twice_moved-IsMember = record {
  first_is_self = refl;
  index_in_range = ground arith;
  slave_has_former = λ e. ground arith;
  few_missed = ground arith;
  trolls = initial_trolling-IsTrolling;
}

check_master_dropped_out-failed_example : check_master_dropped_out seven twice_moved 100050 ≡ failed
unfolding init_history add
check_master_dropped_out-failed_example =
    check_master_dropped_out-failed seven twice_moved 100050 twice_moved-IsMember refl refl
      (ground arith) (ground arith) (λ e. ground arith)

abbrev recovered_seven : Agent
recovered_seven = ok_or (check_master_dropped_out seven lonely_seven 100050) lonely_seven

fishing_seven-IsConsistent : IsConsistent fishing_seven
fishing_seven-IsConsistent = record { active_iff_merger = refl; fishing_iff_mode = refl }

abbrev full_power : PowerReading
full_power = record { is_above_ultra_low = true; is_above_medium = true; is_at_least_2_7 = true }

abbrev no_power : PowerReading
no_power = record { is_above_ultra_low = false; is_above_medium = false; is_at_least_2_7 = false }

abbrev merging_seven : Agent
merging_seven = record fishing_seven {
  role = merger;
  count_sent_merge_syncs = 6;
  clique_merger = record {
    is_merging = true;
    period_time_to_merge_slot_start = 500;
    superior_master_id = 7;
    inferior_master_id = 9;
    kind_of_merger = merge_other;
  };
}

power_loss-maintain_example : (transitions seven no_power (2 + 3) fishing_seven).mode ≡ maintain
power_loss-maintain_example = power_loss-maintain seven fishing_seven no_power 3 refl refl

provisions_every_seventh_example :
    (transitions seven full_power (7 * 2 + 6) fishing_seven).mode ≡ sync_and_provision
provisions_every_seventh_example =
    provisions_every_seventh seven fishing_seven full_power 2 refl refl refl refl

abbrev scattered_seven : Agent
scattered_seven = ok_or (scatter_agent seven merging_seven 12345) merging_seven

-- A scatter that is provisioned at a slave.
abbrev provisioned : ProvisionedValue
provisioned = record { index = 1; value = 0; offset = 0 }

succeed_lem_example :
    (publisher : Publisher) × (subscribe_to_provisionings initial_publisher ≡ ok publisher)
    × (succeed seven (λ n. n) publisher slave_seven provisioned 0
        ≡ ok (schedule_provision_end (handle_scatter_provisioning seven slave_seven)))
succeed_lem_example = succeed_lem seven (λ n. n) initial_publisher slave_seven provisioned 0
