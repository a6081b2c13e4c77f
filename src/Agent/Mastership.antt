-- ===== src/Agent/Mastership.antt =====
-- src/clique/cliqueRoles.cpp and src/clique/clique.cpp: who the master of the clique is, and what a
-- sync message does to the clique. LEAST_ID_IS_BETTER_CLIQUE is defined.

use sleep_sync_agent.Agent.{Agent, Platform}
use sleep_sync_agent.Base.{
  Bool, Checked, check, false, if◌then◌else◌, ltb, not, ok, ℕ, ◌==◌, ◌>>=◌, ◌>>◌,
}
use sleep_sync_agent.Clique.CliqueHistory.{add}
use sleep_sync_agent.Clique.DropoutMonitor.{reset_dropout}
use sleep_sync_agent.Clique.XmitPolicy.{
  XmitPolicy, advance_stage, disarm_for_one_cycle, policy_should_transmit_sync, reset_policy,
}
use sleep_sync_agent.Message.{SyncMessage, does_carry_sync}
use sleep_sync_agent.Schedule.{adjust_by_sync_msg, init}

abbrev pub is_msg_from_my_clique : Agent → ℕ → Bool
is_msg_from_my_clique a other_master_id = a.clique_master_id == other_master_id

abbrev pub is_other_clique_better : Agent → ℕ → Bool
is_other_clique_better a other_master_id = ltb other_master_id a.clique_master_id

abbrev pub is_self_master : Platform → Agent → Bool
is_self_master p a = a.clique_master_id == p.system_id

unfoldable pub set_self_mastership : Platform → Agent → Agent
set_self_mastership p a = record a { clique_master_id = p.system_id }

unfoldable pub update_mastership : Agent → ℕ → Agent
update_mastership a other_id =
    if not (a.clique_master_id == other_id)
    then record a { clique_master_id = other_id; history = add a.history other_id 1 }
    else a

unfoldable pub assume_mastership : Platform → Agent → Agent
unfolding set_self_mastership
assume_mastership p a = set_self_mastership p a

-- Clique::init; `now` is the reading of the clock.
unfoldable pub init_clique : Platform → Agent → ℕ → Agent
unfolding set_self_mastership reset_dropout reset_policy
init_clique p a now =
    let m = set_self_mastership p a in
    record m {
      count_sync_slots_without_sync_msg = reset_dropout;
      policy = reset_policy m.policy;
      schedule = init m.schedule now;
    }

keep_policy : Agent → XmitPolicy × Bool → Agent × Bool
keep_policy a (policy, should) = (record a { policy = policy }, should)

-- Only a master asks the policy.
unfoldable pub should_transmit_sync : Platform → Agent → Bool → Bool → Agent × Bool
unfolding keep_policy policy_should_transmit_sync
should_transmit_sync p a alarm coin =
    if is_self_master p a
    then keep_policy a (policy_should_transmit_sync a.policy alarm coin)
    else (a, false)

unfoldable pub reset_transmit_sync_policy : Agent → Agent
reset_transmit_sync_policy a = record a { policy = reset_policy a.policy }

unfoldable pub heard_sync : Platform → Agent → Agent
unfolding reset_dropout disarm_for_one_cycle
heard_sync p a =
    let b = record a { count_sync_slots_without_sync_msg = reset_dropout } in
    if is_self_master p b then record b { policy = disarm_for_one_cycle b.policy } else b

-- Clique::updateBySyncMessage; `toa` is the time of arrival of the message.
unfoldable pub update_by_sync_message : Agent → SyncMessage → ℕ → Checked Agent
unfolding update_mastership advance_stage
update_by_sync_message a msg toa = do
  check (does_carry_sync msg.type)
  let b = update_mastership a msg.master_id
  schedule ← adjust_by_sync_msg b.schedule toa msg.delta_to_next_sync_point
  ok (record b { policy = advance_stage b.policy; schedule = schedule })
