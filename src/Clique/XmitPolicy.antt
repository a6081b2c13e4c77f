-- ===== src/Clique/XmitPolicy.antt =====
-- src/policy/syncPolicy: when a master transmits sync. The alarming clock is embeddedMath's
-- RandomAlarmingCircularClock, of which only the calls that it gets are known.

use sleep_sync_agent.Base.{Bool, List, [], false, if◌then◌else◌, true, ℕ, ◌∷◌}
use sleep_sync_agent.Params.{count_sync_periods_to_choose_master_sync_xmits}

pub data ClockCall : Type 0 where
  clock_init : ℕ → ClockCall
  clock_wrap clock_tick_with_alarm clock_disarm_for_one_cycle : ClockCall

-- AdaptiveTransmitSyncPolicy over MasterTransmitSyncPolicy; `clock_calls` is newest first.
pub record XmitPolicy : Type 0 where
  pub is_advanced_stage : Bool
  pub clock_calls : List ClockCall

abbrev pub initial_policy : XmitPolicy
initial_policy = record { is_advanced_stage = false; clock_calls = [] }

unfoldable pub reset_policy : XmitPolicy → XmitPolicy
reset_policy p = record {
  is_advanced_stage = false;
  clock_calls =
      clock_wrap ∷ clock_init count_sync_periods_to_choose_master_sync_xmits ∷ p.clock_calls;
}

-- `alarm` is what the clock answers, `coin` is Random::coinToss().
unfoldable pub policy_should_transmit_sync : XmitPolicy → Bool → Bool → XmitPolicy × Bool
policy_should_transmit_sync p alarm coin =
    if p.is_advanced_stage
    then (record p { clock_calls = clock_tick_with_alarm ∷ p.clock_calls }, alarm)
    else (p, coin)

unfoldable pub advance_stage : XmitPolicy → XmitPolicy
advance_stage p = record p { is_advanced_stage = true }

unfoldable pub disarm_for_one_cycle : XmitPolicy → XmitPolicy
disarm_for_one_cycle p = record p { clock_calls = clock_disarm_for_one_cycle ∷ p.clock_calls }
