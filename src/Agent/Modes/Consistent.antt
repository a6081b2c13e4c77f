-- ===== src/Agent/Modes/Consistent.antt =====
-- How the mode, the role and the activity of the merger fit together. Code:
-- src/syncAgentImp/state/syncMode.cpp, src/syncAgentImp/syncAgentRole.cpp,
-- src/cliqueMerger/cliqueMerger.cpp.
use native.Mathlib.Omega.{arith}
use sleep_sync_agent.Agent.{
  Agent, Platform, Role, SyncMode, fisher, is_merger, maintain, merger, no_fishing,
  sync_and_fish_merge, sync_and_provision, sync_only,
}
use sleep_sync_agent.Agent.Mastership.{update_by_sync_message, update_mastership}
use sleep_sync_agent.Agent.Merging.{
  deactivate, init_from_msg, init_merge_my_clique, init_merge_other_clique, set_period_time,
  stop_merger, to_merger_from_fisher, to_no_fishing_from_other,
}
use sleep_sync_agent.Agent.Modes.{PowerReading, check_power_and_try_mode_transitions, scatter_agent}
use sleep_sync_agent.Agent.Reversion.{grab_mastership, scatter_sync}
use sleep_sync_agent.Agent.Roles.{to_fisher, to_merger, to_no_fishing}
use sleep_sync_agent.Base.{Bool, false, ok, refl, true, ℕ, ◌≡◌}
use sleep_sync_agent.Message.{SyncMessage}

abbrev pub may_fish : SyncMode → Bool
may_fish maintain = false
may_fish sync_only = false
may_fish sync_and_fish_merge = true
may_fish sync_and_provision = true

abbrev pub has_role : Role → Bool
has_role no_fishing = false
has_role _ = true

-- The merger is active just in the role of a merger, and a unit fishes or merges just in the
-- modes for it.
pub record IsConsistent (a : Agent) : Type 0 where
  pub active_iff_merger : a.clique_merger.is_merging ≡ is_merger a.role
  pub fishing_iff_mode : has_role a.role ≡ may_fish a.mode

-- Every transition between modes, at any power, keeps the mode, role and merger consistent.
pub check_power_and_try_mode_transitions-IsConsistent :
    (p : Platform) (a : Agent) (v : PowerReading)
    → IsConsistent a
    → IsConsistent (check_power_and_try_mode_transitions p a v)
unfolding check_power_and_try_mode_transitions to_no_fishing_from_other to_fisher deactivate
    to_no_fishing
check_power_and_try_mode_transitions-IsConsistent p a v c = ground arith

-- A fisher that catches a message either fails an assertion, or is a merger with an active merger
-- in the same mode.
pub to_merger_from_fisher-IsConsistent :
    (p : Platform) (a b : Agent) (msg : SyncMessage) (toa : ℕ)
    → IsConsistent a
    → to_merger_from_fisher p a msg toa ≡ ok b
    → IsConsistent b × (b.role ≡ merger) × (b.mode ≡ a.mode)
unfolding to_merger_from_fisher to_merger init_from_msg init_merge_my_clique init_merge_other_clique
    update_by_sync_message update_mastership set_period_time
to_merger_from_fisher-IsConsistent p a b msg toa c e = ground arith

-- To stop merging fails no assertion, and gives back a fisher in the same mode.
pub stop_merger-IsConsistent :
    (a : Agent)
    → IsConsistent a
    → a.role ≡ merger
    → (b : Agent) × (stop_merger a ≡ ok b)
      × IsConsistent b
      × (b.role ≡ fisher)
      × (b.count_sent_merge_syncs ≡ 0)
unfolding stop_merger
stop_merger-IsConsistent a c e =
    (_, refl, record { active_iff_merger = refl; fishing_iff_mode = ground arith }, refl, refl)

-- To scatter a unit that is merging leaves the merger active, though the role has been left.
pub scatter_agent-still_merging :
    (p : Platform) (a b : Agent) (random_offset : ℕ)
    → a.clique_merger.is_merging ≡ true
    → scatter_agent p a random_offset ≡ ok b
    → (b.clique_merger.is_merging ≡ true) × (b.role ≡ no_fishing)
unfolding scatter_agent scatter_sync grab_mastership
scatter_agent-still_merging p a b random_offset m e = ground arith
