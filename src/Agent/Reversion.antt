-- ===== src/Agent/Reversion.antt =====
-- src/clique/cliqueReversion.cpp, cliqueScatter.cpp and clique.cpp: what a unit does when its master
-- has dropped out, and when it scatters.
pub mod Dropout
use sleep_sync_agent.Agent.{Agent, Platform}
use sleep_sync_agent.Agent.Mastership.{
  reset_transmit_sync_policy, set_self_mastership, update_mastership,
}
use sleep_sync_agent.Agent.SyncSchedule.{fishing}
use sleep_sync_agent.Base.{Checked, if◌then◌else◌, ok, ℕ, ◌>>=◌, ◌>>◌}
use sleep_sync_agent.Clique.CliqueHistory.{
  current_clique_record_master_id, is_current_clique_record_self, offset_to_current_clique,
  set_current_clique_record_to_former_clique,
}
use sleep_sync_agent.Clique.DropoutMonitor.{is_dropout}
use sleep_sync_agent.Fishing.Manager.{restart_trolling_mode}
use sleep_sync_agent.Schedule.{adjust_by_clique_history_offset, adjust_with_random_added_time}

unfoldable pub grab_mastership : Platform → Agent → Checked Agent
unfolding set_self_mastership reset_transmit_sync_policy
grab_mastership p a = do
  let b = reset_transmit_sync_policy (set_self_mastership p a)
  fishing ← restart_trolling_mode b.fishing
  ok (record b { fishing = fishing })

-- `now` is the reading of the clock.
unfoldable pub revert_to_former_master : Agent → ℕ → Checked Agent
unfolding update_mastership
revert_to_former_master a now = do
  let b = update_mastership a (current_clique_record_master_id a.history)
  schedule ← adjust_by_clique_history_offset b.schedule now offset_to_current_clique
  fishing ← restart_trolling_mode b.fishing
  ok (record b { schedule = schedule; fishing = fishing })

unfoldable pub revert_by_clique_history : Platform → Agent → ℕ → Checked Agent
unfolding grab_mastership revert_to_former_master set_current_clique_record_to_former_clique
revert_by_clique_history p a now = do
  history ← set_current_clique_record_to_former_clique a.history
  let b = record a { history = history }
  if is_current_clique_record_self b.history p.system_id
      then grab_mastership p b
      else revert_to_former_master b now

pub on_master_dropout : Platform → Agent → ℕ → Checked Agent
unfolding revert_by_clique_history
on_master_dropout p a now = revert_by_clique_history p a now

unfoldable pub check_master_dropped_out : Platform → Agent → ℕ → Checked Agent
unfolding on_master_dropout
check_master_dropped_out p a now = do
  (count, lost) ← is_dropout a.count_sync_slots_without_sync_msg
  let b = record a { count_sync_slots_without_sync_msg = count }
  if lost then on_master_dropout p b now else ok b

-- Clique::scatterSync; `random_offset` is what Random answers.
unfoldable pub scatter_sync : Platform → Agent → ℕ → Checked Agent
unfolding grab_mastership
scatter_sync p a random_offset = do
  b ← grab_mastership p a
  schedule ← adjust_with_random_added_time b.schedule random_offset
  ok (record b { schedule = schedule })
