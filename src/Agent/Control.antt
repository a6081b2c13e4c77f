-- ===== src/Agent/Control.antt =====
-- src/network/intraCliqueManager.cpp, topology.cpp, topologyProvisioner.cpp, scatter.cpp,
-- src/work/workControlProxy.cpp and src/provisioning/workProvisioner.cpp: control messages inside a
-- clique, from the provisioned unit up to the master and down to all members.
pub mod Upstream
pub mod Demoted
use sleep_sync_agent.Agent.{Agent, Platform}
use sleep_sync_agent.Agent.Mastership.{is_msg_from_my_clique, is_self_master}
use sleep_sync_agent.Agent.Reversion.{scatter_sync}
use sleep_sync_agent.Base.{
  Bool, Checked, Option, check, false, if◌then◌else◌, none, not, ok, some, u8, ℕ, ◌&&◌, ◌>>=◌, ◌>>◌,
  ◌∷◌,
}
use sleep_sync_agent.Message.{
  MessageType, SyncMessage, control_net_granularity, control_scatter_clique, control_work_cycle,
  control_work_time, master_sync,
}
use sleep_sync_agent.Network.Granularity.{
  NetGranularity, get_from_raw, get_raw, try_set_granularity,
}
use sleep_sync_agent.Network.SendRepeater.{
  OnDone, SendRepeater, check_done_and_enact_control, on_done_granularity_with_action,
  on_done_repeating_upstream, on_done_scatter, should_send, start, stop,
}

-- IntraCliqueManager, over the unit's repeater.
repeat : Agent → MessageType → ℕ → OnDone → Agent
repeat a a_type value callback = record a { repeater = start a.repeater a_type value callback }

unfoldable pub do_upstream_clique_size_change : Agent → NetGranularity → Agent
unfolding repeat
do_upstream_clique_size_change a granularity =
    repeat a control_net_granularity (get_raw granularity) on_done_repeating_upstream

unfoldable pub do_downstream_clique_size_change : Agent → NetGranularity → Agent
unfolding repeat
do_downstream_clique_size_change a granularity =
    repeat (record a { remembered_granularity = granularity }) master_sync (get_raw granularity)
      on_done_granularity_with_action

unfoldable pub do_upstream_scatter : Agent → Agent
unfolding repeat
do_upstream_scatter a = repeat a control_scatter_clique 1 on_done_repeating_upstream

unfoldable pub do_downstream_scatter : Agent → Agent
unfolding repeat
do_downstream_scatter a = repeat a control_scatter_clique 1 on_done_scatter

unfoldable pub do_upstream_work_time : Agent → ℕ → Agent
unfolding repeat
do_upstream_work_time a clock_advance =
    repeat a control_work_time (u8 clock_advance) on_done_repeating_upstream

unfoldable pub do_upstream_work_cycle : Agent → ℕ → Agent
unfolding repeat
do_upstream_work_cycle a work_cycle =
    repeat a control_work_cycle (u8 work_cycle) on_done_repeating_upstream

abort_repeating : Agent → Agent
abort_repeating a = record a { repeater = stop a.repeater }

keep_repeater : Agent → SendRepeater × Bool → Agent × Bool
keep_repeater a (r, b) = (record a { repeater = r }, b)

unfoldable pub should_send_control_sync : Agent → Bool → Agent × Bool
unfolding keep_repeater
should_send_control_sync a coin =
    if a.repeater.is_active then keep_repeater a (should_send a.repeater coin) else (a, false)

-- Scatter::scatter
abbrev pub scatter : Platform → Agent → ℕ → Checked Agent
scatter p a random_offset = scatter_sync p a random_offset

-- The delayed actions. `random_offset` is what Random answers to a scatter.
unfoldable pub enact : Platform → Agent → OnDone → ℕ → Checked Agent
enact p a on_done_granularity_with_action random_offset = do
  check (is_self_master p a)
  ok (record a { power = try_set_granularity a.power a.remembered_granularity })
enact p a on_done_repeating_upstream random_offset = do check (not (is_self_master p a)); ok a
enact p a on_done_scatter random_offset = do check (is_self_master p a); scatter p a random_offset

enact_if_due : Platform → Agent → SendRepeater × Option OnDone → ℕ → Checked Agent
enact_if_due p a (r, none) random_offset = ok (record a { repeater = r })
enact_if_due p a (r, some f) random_offset = enact p (record a { repeater = r }) f random_offset

-- IntraCliqueManager::checkDoneAndEnactControl
unfoldable pub check_done_and_enact : Platform → Agent → ℕ → Checked Agent
unfolding enact_if_due
check_done_and_enact p a random_offset = do
  r ← check_done_and_enact_control a.repeater
  enact_if_due p a r random_offset

-- NetworkTopology
unfoldable pub cancel_any_upstreaming_in_progress : Platform → Agent → Agent
unfolding abort_repeating
cancel_any_upstreaming_in_progress p a =
    if not (is_self_master p a) && a.repeater.is_active then abort_repeating a else a

unfoldable pub handle_net_granularity_message : Platform → Agent → SyncMessage → Agent
handle_net_granularity_message p a msg = elim (get_from_raw msg.work) [
  | NetGranularity.invalid ↦ a
  | _ ↦
      if is_msg_from_my_clique a msg.master_id
      then if is_self_master p a
        then do_downstream_clique_size_change a (get_from_raw msg.work)
        else cancel_any_upstreaming_in_progress p a
      else a
]

unfoldable pub handle_scatter_message : Platform → Agent → SyncMessage → ℕ → Checked Agent
handle_scatter_message p a msg random_offset =
    if is_msg_from_my_clique a msg.master_id
    then if is_self_master p a
      then ok (do_downstream_scatter a)
      else scatter p (cancel_any_upstreaming_in_progress p a) random_offset
    else ok a

-- NetTopologyProvisioner
unfoldable pub handle_net_granularity_provisioning : Platform → Agent → ℕ → Agent
handle_net_granularity_provisioning p a provisioned_value =
    elim (get_from_raw (u8 provisioned_value)) [
      | NetGranularity.invalid ↦ a
      | _ ↦
          if is_self_master p a
          then do_downstream_clique_size_change a (get_from_raw (u8 provisioned_value))
          else do_upstream_clique_size_change a (get_from_raw (u8 provisioned_value))
    ]

unfoldable pub handle_scatter_provisioning : Platform → Agent → Agent
handle_scatter_provisioning p a =
    if is_self_master p a then do_downstream_scatter a else do_upstream_scatter a

-- WorkControlProxy: the app's callbacks are recorded.
call_work_time : Agent → ℕ → Agent
call_work_time a value = record a { work_times = value ∷ a.work_times }

call_work_cycle : Agent → ℕ → Agent
call_work_cycle a value = record a { work_cycles = value ∷ a.work_cycles }

abbrev pub is_msg_for_self_as_master : Platform → Agent → SyncMessage → Bool
is_msg_for_self_as_master p a msg = is_msg_from_my_clique a msg.master_id && is_self_master p a

unfoldable pub handle_work_time_message : Platform → Agent → SyncMessage → Agent
unfolding call_work_time
handle_work_time_message p a msg =
    if is_msg_for_self_as_master p a msg then call_work_time a msg.work else a

unfoldable pub handle_work_cycle_message : Platform → Agent → SyncMessage → Agent
unfolding call_work_cycle
handle_work_cycle_message p a msg =
    if is_msg_for_self_as_master p a msg then call_work_cycle a msg.work else a

-- WorkProvisioner. `convert` is the app's conversion of elapsed periods to a clock advance.
unfoldable pub provision_work_cycle : Platform → Agent → ℕ → Agent
unfolding call_work_cycle
provision_work_cycle p a work_cycle =
    if is_self_master p a then call_work_cycle a work_cycle else do_upstream_work_cycle a work_cycle

unfoldable pub provision_work_time : Platform → (ℕ → ℕ) → Agent → ℕ → Agent
unfolding call_work_time
provision_work_time p convert a periods_elapsed =
    let clock_advance = convert periods_elapsed in
    if is_self_master p a
    then call_work_time a clock_advance
    else do_upstream_work_time a clock_advance
