-- ===== src/Agent/Behaviour/Better.antt =====
-- The order of cliques decides which sync is taken. Code: src/modules/syncBehaviour.cpp,
-- src/clique/cliqueRoles.cpp.
use native.Mathlib.Omega.{arith}
use sleep_sync_agent.Agent.{Agent, Platform}
use sleep_sync_agent.Agent.Behaviour.{
  filter_sync_msg, handle_superior_or_same_sync_msg, handle_superior_or_same_sync_while_merging,
}
use sleep_sync_agent.Agent.Mastership.{heard_sync, update_by_sync_message, update_mastership}
use sleep_sync_agent.Agent.Merging.{
  deactivate, restart_merge_policy, stop_merger, to_fisher_from_merger,
}
use sleep_sync_agent.Agent.Roles.{to_fisher}
use sleep_sync_agent.Base.{Bool, false, ok, true, ℕ, ◌<◌, ◌≡◌, ◌≤◌, ◌⊎◌}
use sleep_sync_agent.Clique.DropoutMonitor.{reset_dropout}
use sleep_sync_agent.Message.{SyncMessage}

-- Of its own clique and the sender's, a unit is afterwards in the one with the lesser master; the
-- message keeps sync just if that is the sender's, and then no lost sync is counted.
pub filter_sync_msg-lesser :
    (p : Platform) (a b : Agent) (msg : SyncMessage) (toa : ℕ) (heard : Bool)
    → filter_sync_msg p a msg toa ≡ ok (b, heard)
    → (b.clique_master_id ≤ a.clique_master_id)
      × (b.clique_master_id ≤ msg.master_id)
      × ((heard ≡ true)
            × (b.clique_master_id ≡ msg.master_id)
            × (b.count_sync_slots_without_sync_msg ≡ 0)
          ⊎ (heard ≡ false) × (b ≡ a) × (a.clique_master_id < msg.master_id))
unfolding filter_sync_msg update_by_sync_message update_mastership heard_sync stop_merger
    reset_dropout handle_superior_or_same_sync_msg handle_superior_or_same_sync_while_merging
    restart_merge_policy to_fisher_from_merger deactivate to_fisher
filter_sync_msg-lesser p a b msg toa heard e = ground arith

-- A sync message never ends a merger, not even that of another clique: the unit is in the sender's
-- clique by the time its clique is asked.
pub filter_sync_msg-keeps_merger :
    (p : Platform) (a b : Agent) (msg : SyncMessage) (toa : ℕ) (heard : Bool)
    → filter_sync_msg p a msg toa ≡ ok (b, heard)
    → (b.role ≡ a.role) × (b.clique_merger ≡ a.clique_merger)
unfolding filter_sync_msg update_by_sync_message update_mastership heard_sync
    handle_superior_or_same_sync_msg handle_superior_or_same_sync_while_merging
filter_sync_msg-keeps_merger p a b msg toa heard e = ground arith
