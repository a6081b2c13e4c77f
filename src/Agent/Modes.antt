-- ===== src/Agent/Modes.antt =====
-- src/syncAgentImp/state/syncMode.cpp, src/modules/syncPowerManager.cpp,
-- src/provisioning/provisionManager.cpp, src/fishPolicy/fishPowerMgr.cpp and src/work/workIn.cpp:
-- the modes of a unit by its power, and the app's queue of work. LOW_PRIORITY_WORK_Voc3_6 is
-- defined.
pub mod Consistent
pub mod Cycle
use sleep_sync_agent.Agent.{
  Agent, Platform, maintain, sync_and_fish_merge, sync_and_provision, sync_only,
}
use sleep_sync_agent.Agent.Merging.{to_fisher_from_no_fishing, to_no_fishing_from_other}
use sleep_sync_agent.Agent.Reversion.{scatter_sync}
use sleep_sync_agent.Agent.Roles.{to_no_fishing}
use sleep_sync_agent.Agent.SyncSchedule.{fishing}
use sleep_sync_agent.Base.{
  Bool, Checked, false, if◌then◌else◌, ltb, not, ok, true, ℕ, ◌+◌, ◌>>=◌, ◌>>◌,
}
use sleep_sync_agent.Fishing.Trolling.{manage}

-- What the power manager and Vcc of radioSoC answer in one sync period.
pub record PowerReading : Type 0 where
  pub is_above_ultra_low : Bool
  pub is_above_medium : Bool
  pub is_at_least_2_7 : Bool

abbrev pub is_power_for_sync_mode : PowerReading → Bool
is_power_for_sync_mode v = v.is_above_ultra_low

abbrev pub is_power_for_sync_slot : PowerReading → Bool
is_power_for_sync_slot v = v.is_above_ultra_low

abbrev pub is_power_for_fish_mode : PowerReading → Bool
is_power_for_fish_mode v = v.is_above_medium

abbrev pub is_power_for_fish_slot : PowerReading → Bool
is_power_for_fish_slot v = v.is_above_medium

abbrev pub is_power_for_start_loop : PowerReading → Bool
is_power_for_start_loop v = v.is_above_medium

-- ProvisionManager::shouldProvision, with and without SOFTDEVICE_PRESENT.
unfoldable pub should_provision : Platform → Agent → Agent × Bool
should_provision p a =
    if p.softdevice_present
    then (let counter = a.provision_counter + 1 in
        if ltb 5 counter
        then (record a { provision_counter = 0 }, true)
        else (record a { provision_counter = counter }, false))
    else (a, false)

to_sync_only : Agent → Agent
unfolding to_no_fishing_from_other
to_sync_only a = to_no_fishing_from_other (record a { mode = sync_only })

to_sync_and_provision : Agent → Agent
to_sync_and_provision a = record a { mode = sync_and_provision }

try_provision : Agent × Bool → Agent
unfolding to_sync_and_provision
try_provision (a, should) = if should then to_sync_and_provision a else a

unfoldable pub reset_to_mode_maintain : Agent → Agent
unfolding to_no_fishing
reset_to_mode_maintain a = to_no_fishing (record a { mode = maintain })

unfoldable pub check_power_and_try_mode_transitions : Platform → Agent → PowerReading → Agent
unfolding to_fisher_from_no_fishing should_provision to_sync_only try_provision
check_power_and_try_mode_transitions p a v = elim a.mode [
  | maintain ↦ if is_power_for_sync_mode v then record a { mode = sync_only } else a
  | sync_only ↦
      if not (is_power_for_sync_mode v)
      then record a { mode = maintain }
      else if is_power_for_fish_mode v
      then to_fisher_from_no_fishing (record a { mode = sync_and_fish_merge })
      else a
  | sync_and_fish_merge ↦
      if not (is_power_for_fish_mode v)
      then to_sync_only a
      else try_provision (should_provision p a)
  | sync_and_provision ↦
      if not (is_power_for_fish_mode v)
      then to_sync_only a
      else record a { mode = sync_and_fish_merge }
]

-- WorkIn
unfoldable pub reset_work_state : Agent → Agent
reset_work_state a = record a { heard_work = false }

unfoldable pub hear_work : Agent → Agent
hear_work a = record a { heard_work = true }

-- FishPowerMgr::manage, on the unit.
unfoldable pub manage_fish_power : Agent → PowerReading → Checked Agent
manage_fish_power a v = do
  troll ← manage a.fishing.troll v.is_at_least_2_7
  ok (record a { fishing = record a.fishing { troll = troll } })

-- SyncAgentImp::scatter; `random_offset` is what Random answers.
unfoldable pub scatter_agent : Platform → Agent → ℕ → Checked Agent
unfolding reset_to_mode_maintain reset_work_state scatter_sync
scatter_agent p a random_offset = do
  b ← scatter_sync p a random_offset
  ok (reset_work_state (reset_to_mode_maintain b))
