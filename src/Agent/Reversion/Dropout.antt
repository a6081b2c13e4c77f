-- ===== src/Agent/Reversion/Dropout.antt =====
-- The history of masters, and what a dropout comes to. Code: src/clique/cliqueReversion.cpp,
-- src/clique/cliqueRoles.cpp, src/cliqueHistory/cliqueHistory.cpp, src/policy/dropoutMonitor.cpp.

use sleep_sync_agent.Agent.{Agent, Platform}
use sleep_sync_agent.Agent.Mastership.{
  assume_mastership, heard_sync, init_clique, is_self_master, update_by_sync_message,
  update_mastership,
}
use sleep_sync_agent.Agent.Reversion.{
  check_master_dropped_out, grab_mastership, revert_by_clique_history, revert_to_former_master,
  scatter_sync,
}
use sleep_sync_agent.Base.{Checked, arith, failed, false, ok, true, ℕ, ◌+◌, ◌-◌, ◌<◌, ◌≡◌, ◌≢◌, ◌≤◌}
use sleep_sync_agent.Clique.CliqueHistory.{
  add, current_clique_record_master_id, init_history, is_current_clique_record_self,
  offset_to_current_clique, record_count, set_current_clique_record_to_former_clique,
}
use sleep_sync_agent.Clique.DropoutMonitor.{is_dropout, reset_dropout}
use sleep_sync_agent.Fishing.Manager.{restart_trolling_mode}
use sleep_sync_agent.Fishing.Trolling.InRange.{IsTrolling, restart-Keeps}
use sleep_sync_agent.Message.{SyncMessage}
use sleep_sync_agent.Params.{max_missing_syncs_per_dropout}
use sleep_sync_agent.Schedule.{adjust_by_clique_history_offset}
use sleep_sync_agent.Schedule.Adjusting.{adjust_by_clique_history_offset-failed, clock_limit}

-- The first record of the history is the unit itself, the index is one of the six, a unit that is
-- not its own master has a former clique to revert to, and the counters are in range.
pub record IsMember (p : Platform) (a : Agent) : Type 0 where
  pub first_is_self : (a.history.clique_records 0).master_id ≡ p.system_id
  pub index_in_range : a.history.current_clique_index < record_count
  pub slave_has_former : is_self_master p a ≡ false → 0 < a.history.current_clique_index
  pub few_missed : a.count_sync_slots_without_sync_msg ≤ max_missing_syncs_per_dropout
  pub trolls : IsTrolling a.fishing.troll

pub update_mastership-IsMember :
    (p : Platform) (a : Agent) (other_id : ℕ)
    → IsMember p a
    → IsMember p (update_mastership a other_id)
unfolding update_mastership add
update_mastership-IsMember p a other_id v = ground arith

-- After power on, with the history initialized, a unit is a member of its own clique.
pub init_clique-IsMember :
    (p : Platform) (a : Agent) (now : ℕ)
    → IsTrolling a.fishing.troll
    → a.history.current_clique_index ≡ 0
    → let b = init_clique p a now in
      IsMember p (record b { history = init_history b.history p.system_id })
unfolding init_clique init_history
init_clique-IsMember p a now v e = ground arith

-- Where an assertion holds, the invariant does; a failed assertion stops the unit.
abbrev pub MemberIfOk : Platform → Checked Agent → Type 0
MemberIfOk p (ok a) = IsMember p a
MemberIfOk p failed = Unit {0}

grab_mastership-MemberIfOk :
    (p : Platform) (a : Agent)
    → IsTrolling a.fishing.troll
    → (a.history.clique_records 0).master_id ≡ p.system_id
    → a.history.current_clique_index < record_count
    → a.count_sync_slots_without_sync_msg ≤ max_missing_syncs_per_dropout
    → MemberIfOk p (grab_mastership p a)
unfolding grab_mastership restart_trolling_mode
grab_mastership-MemberIfOk p a v e h k = ground (arith, restart-Keeps a.fishing.troll v)

revert_to_former_master-MemberIfOk :
    (p : Platform) (a : Agent) (now : ℕ)
    → IsTrolling a.fishing.troll
    → (a.history.clique_records 0).master_id ≡ p.system_id
    → a.history.current_clique_index < record_count
    → a.count_sync_slots_without_sync_msg ≤ max_missing_syncs_per_dropout
    → MemberIfOk p (revert_to_former_master a now)
unfolding revert_to_former_master restart_trolling_mode adjust_by_clique_history_offset add
    current_clique_record_master_id
revert_to_former_master-MemberIfOk p a now v e h k = ground (arith, restart-Keeps a.fishing.troll v)

revert_by_clique_history-MemberIfOk :
    (p : Platform) (a : Agent) (now : ℕ)
    → IsMember p a
    → MemberIfOk p (revert_by_clique_history p a now)
unfolding revert_by_clique_history
revert_by_clique_history-MemberIfOk p a now v =
    let former = record a {
      history = record a.history { current_clique_index = a.history.current_clique_index - 1 };
    } in
    ground (
      arith,
      grab_mastership-MemberIfOk p former v.trolls v.first_is_self (omega arith) v.few_missed,
      revert_to_former_master-MemberIfOk p former now v.trolls v.first_is_self (omega arith)
          v.few_missed,
    )

-- What happens to the clique of a unit: a sync message is taken up, or heard; mastership is
-- assumed; the end of a sync slot checks for a dropout; the clique is scattered.
pub data CliqueCall : Type 0 where
  updates : SyncMessage → ℕ → CliqueCall
  hears assumes : CliqueCall
  checks scatters : ℕ → CliqueCall

pub clique_step : Platform → Agent → CliqueCall → Checked Agent
clique_step p a (updates msg toa) = update_by_sync_message a msg toa
clique_step p a hears = ok (heard_sync p a)
clique_step p a assumes = ok (assume_mastership p a)
clique_step p a (checks now) = check_master_dropped_out p a now
clique_step p a (scatters random_offset) = scatter_sync p a random_offset

pub check_master_dropped_out-MemberIfOk :
    (p : Platform) (a : Agent) (now : ℕ)
    → IsMember p a
    → MemberIfOk p (check_master_dropped_out p a now)
unfolding check_master_dropped_out is_dropout reset_dropout
check_master_dropped_out-MemberIfOk p a now v = ground (
  arith,
  revert_by_clique_history-MemberIfOk p (record a { count_sync_slots_without_sync_msg = 0 }) now,
)

-- Every call on the clique of a unit keeps the invariant, unless an assertion stops the unit.
pub clique_step-MemberIfOk :
    (p : Platform) (a : Agent) (c : CliqueCall) → IsMember p a → MemberIfOk p (clique_step p a c)
unfolding clique_step update_by_sync_message heard_sync assume_mastership scatter_sync
clique_step-MemberIfOk p a (updates msg toa) v =
    ground (arith, update_mastership-IsMember p a msg.master_id v)
clique_step-MemberIfOk p a hears v = ground arith
clique_step-MemberIfOk p a assumes v = ground arith
clique_step-MemberIfOk p a (checks now) v = check_master_dropped_out-MemberIfOk p a now v
clique_step-MemberIfOk p a (scatters random_offset) v =
    ground
      (arith, grab_mastership-MemberIfOk p a v.trolls v.first_is_self v.index_in_range v.few_missed)

-- The unit is its own master, has lost no sync yet, and keeps its schedule and its history's
-- records.
abbrev pub BecomesMaster : Platform → Agent → Checked Agent → Type 0
BecomesMaster p a (ok b) =
    (is_self_master p b ≡ true)
    × (b.schedule ≡ a.schedule)
    × (b.count_sync_slots_without_sync_msg ≡ 0)
    × (b.history.clique_records ≡ a.history.clique_records)
BecomesMaster p a failed = ⊥

-- A slave whose former clique was its own, and whose last tolerated sync slot was silent, becomes
-- its own master on the same schedule; no assertion fails.
pub check_master_dropped_out-BecomesMaster :
    (p : Platform) (a : Agent) (now : ℕ)
    → IsMember p a
    → is_self_master p a ≡ false
    → a.count_sync_slots_without_sync_msg ≡ max_missing_syncs_per_dropout
    → (a.history.clique_records (a.history.current_clique_index - 1)).master_id ≡ p.system_id
    → BecomesMaster p a (check_master_dropped_out p a now)
unfolding check_master_dropped_out is_dropout reset_dropout revert_by_clique_history grab_mastership
    restart_trolling_mode is_current_clique_record_self revert_to_former_master
    set_current_clique_record_to_former_clique
check_master_dropped_out-BecomesMaster p a now v slave last former =
    ground (arith, restart-Keeps a.fishing.troll v.trolls, v.slave_has_former slave)

-- A slave whose former clique had another master fails an assertion when the last tolerated sync
-- slot was silent, if the unadjusted end of the period is more than the history offset ahead and far
-- from the end of the clock.
pub check_master_dropped_out-failed :
    (p : Platform) (a : Agent) (now : ℕ)
    → IsMember p a
    → is_self_master p a ≡ false
    → a.count_sync_slots_without_sync_msg ≡ max_missing_syncs_per_dropout
    → now + offset_to_current_clique < a.schedule.unadjusted_end_time_of_sync_period
    → a.schedule.unadjusted_end_time_of_sync_period < clock_limit
    → (a.history.clique_records (a.history.current_clique_index - 1)).master_id ≢ p.system_id
    → check_master_dropped_out p a now ≡ failed
unfolding check_master_dropped_out is_dropout revert_by_clique_history revert_to_former_master
    is_current_clique_record_self set_current_clique_record_to_former_clique
check_master_dropped_out-failed p a now v slave last early near former =
    ground (arith, adjust_by_clique_history_offset-failed a.schedule now offset_to_current_clique)

-- Whenever a dropout is taken through, at any time, the unit is its own master afterwards: a former
-- master is never restored.
pub dropout-self_master :
    (p : Platform) (a b : Agent) (now : ℕ)
    → IsMember p a
    → a.count_sync_slots_without_sync_msg ≡ max_missing_syncs_per_dropout
    → check_master_dropped_out p a now ≡ ok b
    → is_self_master p b ≡ true
unfolding check_master_dropped_out is_dropout revert_by_clique_history grab_mastership
    revert_to_former_master restart_trolling_mode current_clique_record_master_id add
    adjust_by_clique_history_offset is_current_clique_record_self
dropout-self_master p a b now v last e = ground arith
